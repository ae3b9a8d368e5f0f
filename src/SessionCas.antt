-- ===== src/SessionCas.antt =====
-- The session token of the cluster manager: daemon/session_cas.h and daemon/session_cas.cc. Each
-- operation holds the object's mutex throughout, so a history of the program is a sequence of them.
pub mod Protect
use memcached.Common.{
  ℕ, ◌+◌, ◌-◌, ◌%◌, ◌^◌, ◌<◌, Bool, true, false, ◌||◌, ◌!=◌, ◌==◌, ltb, if◌then◌else◌, Option, some,
  none, List, [], ◌∷◌,
}

-- class SessionCas; both members are uint64.
pub record SessionCas : Type 0 where
  pub value : ℕ
  pub counter : ℕ

abbrev pub new_session_cas : SessionCas
new_session_cas = record { value = 0xdeadbeef; counter = 0 }

-- The engine's error codes that `cas` returns.
pub data CasStatus : Type 0 where
  success ebusy key_eexists : CasStatus

-- What `cas` returns, with the value it leaves in `currentValue` and the object.
pub record CasResult : Type 0 where
  pub status : CasStatus
  pub current : ℕ
  pub session : SessionCas

-- `session_cas.counter` in the body is the counter of the global object, whose state is `global`.
unfoldable pub cas : SessionCas → ℕ → ℕ → SessionCas → CasResult
cas global new_value casval s =
    if ltb 0 global.counter
    then record { status = ebusy; current = s.value; session = s }
    else if casval == 0 || casval == s.value
    then record {
      status = success;
      current = new_value;
      session = record { value = new_value; counter = s.counter };
    }
    else record { status = key_eexists; current = s.value; session = s }

unfoldable pub get_cas_value : SessionCas → ℕ
get_cas_value s = s.value

abbrev pub counted : SessionCas → SessionCas
counted s = record { value = s.value; counter = (s.counter + 1) % 2 ^ 64 }

unfoldable pub increment_session_counter : ℕ → SessionCas → Bool × SessionCas
increment_session_counter token s =
    if token != 0
    then (if s.value != token then (false, s) else (true, counted s))
    else (true, counted s)

-- `none` is the exception.
unfoldable pub decrement_session_counter : SessionCas → Option SessionCas
decrement_session_counter s =
    if s.counter == 0 then none else some (record { value = s.value; counter = s.counter - 1 })
