-- ===== src/TopKeys/Visited.antt =====
-- What the visitor of a shard is given after an index is unlinked, or an element written.
use memcached.TopKeys.{Topkey, ◌>>=◌, get_elem?, set_elem, pop_back, unlink, accept_visitor}
use memcached.Common.{
  ℕ, suc, ◌<◌, ◌≡◌, refl, sym, ◌∙◌, ap, ◌≢◌, inl, inr, Bool, true, false, ◌||◌, ◌==◌, ==_iff,
  ==_absurd, or-false, Bool-cases, Option, none, some, List, [], ◌∷◌, ◌++◌, length, arith,
}
use memcached.TopKeys.Lru.{Nodup, extract, mem, cut}
use memcached.TopKeys.Storage.{get_elem?-append, get_elem?-lt, get_elem?-set_elem_ne}

pub bind-some {ℓ κ} :
    {A : Type ℓ} {B : Type κ} (o : Option A) (f : A → Option B) {b : B}
    → (o >>= f) ≡ some b
    → (a : A) × (o ≡ some a) × (f a ≡ some b)
bind-some none f h = cc
bind-some (some a) f h = (a, refl, h)

pub accept_visitor-cons :
    (storage : List Topkey) (i : ℕ) (list : List ℕ) {shown : List Topkey}
    → accept_visitor storage (i ∷ list) ≡ some shown
    → (t : Topkey) × (rest : List Topkey) × (get_elem? storage i ≡ some t)
      × (accept_visitor storage list ≡ some rest)
      × (shown ≡ t ∷ rest)
unfolding accept_visitor
accept_visitor-cons storage i list h =
    let (t, got, h') = bind-some (get_elem? storage i) _ h in
    let (rest, visited, e) = bind-some (accept_visitor storage list) _ h' in
    (t, rest, got, visited, cc)

pub mem_self : (i : ℕ) (list : List ℕ) → mem i (i ∷ list) ≡ true
unfolding mem
mem_self i list = ground arith

or-swap : (a b c d : Bool) → (a || b) ≡ d → (a || (c || b)) ≡ (c || d)
or-swap a b c d h = rw (← h) (swap a c b)
  where
    swap : (a c b : Bool) → (a || (c || b)) ≡ (c || (a || b))
    swap false c b = refl
    swap true false b = refl
    swap true true b = refl

==_comm : (i j : ℕ) → (i == j) ≡ (j == i)
==_comm i j = ground arith

-- Writing to an element that the list does not point to is not seen.
pub accept_visitor-set_elem :
    (storage : List Topkey) (list : List ℕ) (i : ℕ) (t : Topkey)
    → mem i list ≡ false
    → accept_visitor (set_elem storage i t) list ≡ accept_visitor storage list
unfolding accept_visitor mem
accept_visitor-set_elem storage [] i t h = refl
accept_visitor-set_elem storage (j ∷ list) i t h =
    let apart : i ≢ j = ground arith in
    rw
      (
        get_elem?-set_elem_ne storage i j t apart,
        accept_visitor-set_elem storage list i t (ground arith),
      )
      refl

-- A new element at the end is not seen either.
pub accept_visitor-append :
    (storage : List Topkey) (list : List ℕ) (t : Topkey) {shown : List Topkey}
    → accept_visitor storage list ≡ some shown
    → accept_visitor (storage ++ t ∷ []) list ≡ some shown
unfolding accept_visitor
accept_visitor-append storage [] t h = h
accept_visitor-append storage (j ∷ list) t h =
    let (u, rest, got, visited, e) = accept_visitor-cons storage j list h in
    rw
      (
        get_elem?-append storage (t ∷ []) j (get_elem?-lt storage j got),
        got,
        accept_visitor-append storage list t visited,
        e,
      )
      refl

pub length-accept_visitor :
    (storage : List Topkey) (list : List ℕ) {shown : List Topkey}
    → accept_visitor storage list ≡ some shown
    → length shown ≡ length list
unfolding accept_visitor
length-accept_visitor storage [] {shown} h = let e : shown ≡ [] = cc in rw e refl
length-accept_visitor storage (j ∷ list) h =
    let (u, rest, got, visited, e) = accept_visitor-cons storage j list h in
    rw (e, length-accept_visitor storage list visited) refl

-- The least recently used element: the list without its last index shows everything but the last key.
pub pop_back-accept_visitor :
    (storage : List Topkey) (i : ℕ) (list : List ℕ) {shown : List Topkey}
    → accept_visitor storage (i ∷ list) ≡ some shown
    → Nodup (i ∷ list)
    → (rest : List ℕ) × (last : ℕ) × (pop_back (i ∷ list) ≡ some (rest, last))
      × (accept_visitor storage rest ≡ some (cut (length list) shown))
      × (mem last rest ≡ false)
      × Nodup rest
      × ((j : ℕ) → mem j (last ∷ rest) ≡ mem j (i ∷ list))
      × (length rest ≡ length list)
      × (last < length storage)
unfolding accept_visitor pop_back mem cut
pop_back-accept_visitor storage i [] {shown} h d =
    let (u, rest, got, visited, e) = accept_visitor-cons storage i [] h in
    (
      [],
      i,
      refl,
      ap (λ x. some (cut 0 x)) (sym e),
      refl,
      tt,
      (λ j. refl),
      refl,
      get_elem?-lt storage i got,
    )
pop_back-accept_visitor storage i (j ∷ list) {shown} h d =
    let (u, shown', got, visited, e) = accept_visitor-cons storage i (j ∷ list) h in
    let (rest, last, popped, shows, out, distinct, same, long, bound) =
      pop_back-accept_visitor storage j list visited d.1 in
    let apart : mem i (last ∷ rest) ≡ false = same i ∙ d.0 in
    (
      i ∷ rest,
      last,
      rw popped refl,
      rw (got, shows) (ap (λ x. some (cut (suc (length list)) x)) (sym e)),
      rw (==_comm i last, (or-false (last == i) (mem i rest) apart).0, out) refl,
      ((or-false (last == i) (mem i rest) apart).1, distinct),
      (λ k. or-swap (last == k) (mem k rest) (i == k) (mem k (j ∷ list)) (same k)),
      ap suc long,
      bound,
    )

pub pop_back_nonempty :
    (storage : List Topkey) (n : ℕ) (list : List ℕ) {shown : List Topkey}
    → length list ≡ suc n
    → accept_visitor storage list ≡ some shown
    → Nodup list
    → (rest : List ℕ) × (last : ℕ) × (pop_back list ≡ some (rest, last))
      × (accept_visitor storage rest ≡ some (cut n shown))
      × (mem last rest ≡ false)
      × Nodup rest
      × ((j : ℕ) → mem j (last ∷ rest) ≡ mem j list)
      × (suc (length rest) ≡ length list)
      × (last < length storage)
pop_back_nonempty storage n [] long h d = absurd (omega arith)
pop_back_nonempty storage n (i ∷ list) long h d =
    let e : length list ≡ n = omega arith in
    let (rest, last, popped, shows, out, distinct, same, same_length, bound) =
      pop_back-accept_visitor storage i list h d in
    (rest, last, popped, rw (← e) shows, out, distinct, same, ap suc same_length, bound)

-- Each index in the list points into the storage.
pub accept_visitor-lt :
    (storage : List Topkey) (i : ℕ) (list : List ℕ) {shown : List Topkey}
    → accept_visitor storage list ≡ some shown
    → mem i list ≡ true
    → i < length storage
unfolding mem
accept_visitor-lt storage i [] h m = cc
accept_visitor-lt storage i (j ∷ list) h m =
    let (u, rest, got, visited, e) = accept_visitor-cons storage j list h in
    elim (Bool-cases (j == i)) [
      | inl same ↦ rw (← (==_iff j i).0 same) (get_elem?-lt storage j got)
      | inr other ↦ accept_visitor-lt storage i list visited (sym (rw other refl) ∙ m)
    ]

-- Unlinking an index that is in the list shows everything but the element that it points to.
pub unlink-accept_visitor :
    (storage : List Topkey) (i : ℕ) {t : Topkey} (p : Topkey → Bool)
    → get_elem? storage i ≡ some t
    → p t ≡ true
    → ((j : ℕ) (u : Topkey) → get_elem? storage j ≡ some u → p u ≡ true → j ≡ i)
    → (list : List ℕ) {shown : List Topkey} → accept_visitor storage list ≡ some shown
    → mem i list ≡ true
    → Nodup list
    → (rest : List ℕ) × (shown' : List Topkey) × (unlink i list ≡ some rest)
      × (accept_visitor storage rest ≡ some shown')
      × (extract p shown ≡ some (t, shown'))
      × (mem i rest ≡ false)
      × Nodup rest
      × ((j : ℕ) → mem j (i ∷ rest) ≡ mem j list)
      × (suc (length rest) ≡ length list)
unfolding accept_visitor mem extract unlink
unlink-accept_visitor storage i p got pass only [] h m d = cc
unlink-accept_visitor storage i {t} p got pass only (j ∷ list) {shown} h m d =
    let (u, shown', at, visited, e) = accept_visitor-cons storage j list h in
    elim (Bool-cases (j == i)) [
      | inl same ↦
          let here : j ≡ i = (==_iff j i).0 same in
          let equal : u ≡ t = cc in
          (
            list,
            shown',
            rw same refl,
            visited,
            rw (e, equal, pass) refl,
            rw (← here) d.0,
            d.1,
            (λ k. rw here refl),
            refl,
          )
      | inr other ↦
          let (rest, shown'', unlinked, shows, found, out, distinct, members, long) =
            unlink-accept_visitor storage i p got pass only list visited (ground arith) d.1 in
          let rejected : p u ≡ false = elim (Bool-cases (p u)) [
            | inl passes ↦ absurd (==_absurd j i other (only j u at passes))
            | inr fails ↦ fails
          ] in
          (
            j ∷ rest,
            u ∷ shown'',
            rw (other, unlinked) refl,
            rw (at, shows) refl,
            rw (e, rejected, found) refl,
            rw (other, out) refl,
            ((or-false (i == j) (mem j rest) (members j ∙ d.0)).1, distinct),
            (λ k. or-swap (i == k) (mem k rest) (j == k) (mem k list) (members k)),
            ap suc long,
          )
    ]

-- Where no element passes, the visitor is given none that does.
pub extract-accept_visitor :
    (storage : List Topkey) (p : Topkey → Bool)
    → ((j : ℕ) (u : Topkey) → get_elem? storage j ≡ some u → p u ≡ false)
    → (list : List ℕ) {shown : List Topkey} → accept_visitor storage list ≡ some shown
    → extract p shown ≡ none
unfolding accept_visitor extract
extract-accept_visitor storage p none_pass [] {shown} h = let e : shown ≡ [] = cc in rw e refl
extract-accept_visitor storage p none_pass (j ∷ list) h =
    let (u, rest, got, visited, e) = accept_visitor-cons storage j list h in
    rw (e, none_pass j u got, extract-accept_visitor storage p none_pass list visited) refl
