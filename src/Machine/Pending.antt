-- ===== src/Machine/Pending.antt =====
-- A connection that is pending is destroyed once no one holds it any more.
use memcached.Machine.{Driven, World, Outcome, returns, throws, out_of_fuel}
use memcached.Machine.Loop.{continue, run_state_machinery}
use memcached.Connection.{conn_pending_close}
use memcached.Common.{
  ℕ, ◌+◌, ◌≤◌, ◌≡◌, refl, ◌∙◌, and-true, inl, inr, Bool, true, false, ◌&&◌, List, [], ◌∷◌, arith,
}
use memcached.Machine.Closing.{Destroyed, Pending, can_close, Destroyed-turn, Pending-cases}

-- The events that come to a connection, each with what its first two tasks are answered.
unfoldable pub events : List (World × World) → Driven → Outcome
unfolding run_state_machinery continue
events [] d = returns false d
events ((w, w') ∷ later) d = elim (run_state_machinery (w ∷ w' ∷ []) d) [
  | returns cont d' ↦ events later d'
  | throws d' ↦ throws d'
  | out_of_fuel ↦ out_of_fuel
]

-- How many references are given back while they come.
abbrev pub releases : List (World × World) → ℕ
releases [] = 0
releases ((w, w') ∷ later) = w.release + releases later

abbrev pub all_can_close : List (World × World) → Bool
all_can_close [] = true
all_can_close ((w, w') ∷ later) = can_close w' && all_can_close later

event_lem :
    (w w' : World) (later : List (World × World)) (d d' : Driven)
    → run_state_machinery (w ∷ w' ∷ []) d ≡ returns false d'
    → events ((w, w') ∷ later) d ≡ events later d'
unfolding events
event_lem w w' later d d' ran = rw (events, ran) refl

events-Destroyed' :
    (later : List (World × World)) (d : Driven) → Destroyed d → events later d ≡ returns false d
unfolding events
events-Destroyed' [] d h = refl
events-Destroyed' ((w, w') ∷ later) d h =
    event_lem w w' later d d (Destroyed-turn w (w' ∷ []) d h) ∙ events-Destroyed' later d h

-- Let a connection be pending with its socket closed and owned by a thread, and let one or more
-- events come to it whose ON_DISCONNECT callbacks give back enough references for at most one to be
-- left, its port known or the connection a pipe at each, and the server's verbosity at most 2. Then
-- the events leave it destroyed: its socket closed, no thread owning it, no input left, and no
-- longer TAP or DCP.
pub events-Destroyed :
    (w w' : World) (later : List (World × World)) (d : Driven)
    → Pending conn_pending_close d
    → (can_close w' && all_can_close later) ≡ true
    → d.refcount ≤ 1 + w.release + releases later
    → (d' : Driven) × (events ((w, w') ∷ later) d ≡ returns false d') × Destroyed d'
unfolding events
events-Destroyed w w' [] d p known enough =
    let (here, others) = and-true (can_close w') true known in
    let (d', ran, cases) = Pending-cases w w' d p here in
    elim cases [
      | inl held ↦ let count = held.1 in let many = held.2 in absurd (omega arith)
      | inr destroyed ↦ (d', event_lem w w' [] d d' ran, destroyed)
    ]
events-Destroyed w w' ((v, v') ∷ later) d p known enough =
    let (here, others) = and-true (can_close w') (all_can_close ((v, v') ∷ later)) known in
    let (d', ran, cases) = Pending-cases w w' d p here in
    elim cases [
      | inl held ↦
          let count = held.1 in
          let (d₂, went, destroyed) = events-Destroyed v v' later d' held.0 others (omega arith) in
          (d₂, event_lem w w' ((v, v') ∷ later) d d' ran ∙ went, destroyed)
      | inr destroyed ↦ (
        d',
        event_lem w w' ((v, v') ∷ later) d d' ran
            ∙ events-Destroyed' ((v, v') ∷ later) d' destroyed,
        destroyed,
      )
    ]
