-- ===== src/SessionCas/Protect.antt =====
-- What the session counter protects.
use memcached.Common.{
  ℕ, ◌+◌, ◌-◌, ◌^◌, ◌<◌, ◌≤◌, ◌≡◌, refl, if◌then◌else◌, Option, some, none, List, [], ◌∷◌, length,
  arith, ◌≢◌, ◌∙◌, true,
}
use memcached.SessionCas.{
  SessionCas, success, key_eexists, cas, get_cas_value, increment_session_counter,
  decrement_session_counter,
}

-- A call on the global object.
pub data Operation : Type 0 where
  set_token : ℕ → ℕ → Operation
  increment : ℕ → Operation
  decrement : Operation

unfoldable pub step : Operation → SessionCas → Option SessionCas
step (set_token new_value casval) s = some ((cas s new_value casval s).session)
step (increment token) s = some ((increment_session_counter token s).1)
step decrement s = decrement_session_counter s

unfoldable pub run : List Operation → SessionCas → Option SessionCas
run [] s = some s
run (op ∷ ops) s = elim (step op s) [ none ↦ none | some next ↦ run ops next ]

-- How many other holders there are after a call.
unfoldable pub others_after : Operation → SessionCas → ℕ → ℕ
others_after (set_token new_value casval) s others = others
others_after (increment token) s others =
    if (increment_session_counter token s).0 then others + 1 else others
others_after decrement s others = others - 1

-- A history is legal beside a holder where each decrement belongs to one of the others.
abbrev pub Allowed : Operation → ℕ → Type 0
Allowed (set_token new_value casval) others = Unit
Allowed (increment token) others = Unit
Allowed decrement others = 1 ≤ others

abbrev pub Legal : ℕ → List Operation → SessionCas → Type 0
Legal others [] s = Unit
Legal others (op ∷ ops) s =
    Allowed op others
    × elim (step op s) [ none ↦ Unit | some next ↦ Legal (others_after op s others) ops next ]

step_protected :
    (op : Operation) (s : SessionCas) (others : ℕ)
    → s.counter ≡ others + 1
    → others + 2 < 2 ^ 64
    → Allowed op others
    → (next : SessionCas) × (step op s ≡ some next)
      × (next.value ≡ s.value)
      × (next.counter ≡ others_after op s others + 1)
      × (others_after op s others ≤ others + 1)
unfolding step others_after cas increment_session_counter decrement_session_counter
step_protected (set_token new_value casval) s others e w a = (s, ground arith, refl, e, omega arith)
step_protected (increment token) s others e w a =
    ((increment_session_counter token s).1, refl, ground arith, ground arith, ground arith)
step_protected decrement s others e w a = (
  record { value = s.value; counter = s.counter - 1 },
  ground arith,
  refl,
  omega arith,
  omega arith,
)

-- While a client has incremented the session counter and not yet decremented it, every history of
-- calls by others, in which a decrement belongs to an earlier increment and which the 64-bit counter
-- has room for, runs without an exception, keeps the token and leaves the counter positive.
pub run_protected :
    (ops : List Operation) (s : SessionCas) (others : ℕ)
    → s.counter ≡ others + 1
    → others + 1 + length ops < 2 ^ 64
    → Legal others ops s
    → (done : SessionCas) × (run ops s ≡ some done) × (done.value ≡ s.value) × (1 ≤ done.counter)
unfolding run
run_protected [] s others e w legal = (s, refl, refl, omega arith)
run_protected (op ∷ ops) s others e w legal =
    let (next, stepped, same, counter, grown) =
      step_protected op s others e (omega arith) legal.0 in
    let (done, ran, kept, held) =
      run_protected ops next (others_after op s others) counter (omega arith)
        (rw stepped at legal.1) in
    (done, rw (run, stepped) ran, kept ∙ same, held)

-- An increment for a named token succeeds only where that token is the current one.
pub increment_named :
    (token : ℕ) (s : SessionCas)
    → token ≢ 0
    → (increment_session_counter token s).0 ≡ true
    → get_cas_value s ≡ token
unfolding increment_session_counter get_cas_value
increment_named token s named ok = ground arith

-- Of two clients that set a new token and name the same old one, which is not the wildcard, the
-- second fails once the first has succeeded, learns the first one's token and leaves it in place.
pub cas_once :
    (first second old : ℕ) (s : SessionCas)
    → old ≢ 0
    → first ≢ old
    → (cas s first old s).status ≡ success
    → let s' = (cas s first old s).session in
      ((cas s' second old s').status ≡ key_eexists)
      × ((cas s' second old s').current ≡ first)
      × (get_cas_value (cas s' second old s').session ≡ first)
unfolding cas get_cas_value
cas_once first second old s named new ok = (ground arith, ground arith, ground arith)
