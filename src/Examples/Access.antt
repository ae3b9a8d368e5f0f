-- ===== src/Examples/Access.antt =====
-- The theorems on privileges and on the session token, on concrete connections.
use memcached.Common.{◌≡◌, refl, ◌↔◌, true, false, some, ◌≤◌, List, [], ◌∷◌, arith}
use memcached.Chain.Table.{Registered, has_rule}
use memcached.Privileges.Checks.{ok, Subject, run_check, check_addressed, access_returns}
use memcached.Privileges.Table.{privilege_calls, privilege_chains, invoke_privileges}
use memcached.Privileges.Access.{invoke_privileges_iff, validated_commands_ruled}
use memcached.SessionCas.{
  SessionCas, key_eexists, cas, get_cas_value, increment_session_counter, decrement_session_counter,
}
use memcached.SessionCas.Protect.{
  Operation, set_token, increment, decrement, Legal, run, step, others_after, run_protected,
  cas_once,
}
use memcached.Validators.Table.{validator_calls}

abbrev client : Subject
client = record { is_admin = false; testing = false }

abbrev admin : Subject
admin = record { is_admin = true; testing = false }

invoke_privileges_iff_example : (invoke_privileges (privilege_chains false) 0x05 client ≡ ok) ↔ (
    (has_rule 0x05 privilege_calls ≡ true)
    × Registered (λ check. run_check check client ≡ ok) 0x05 privilege_calls)
invoke_privileges_iff_example = invoke_privileges_iff 0x05 client

validated_commands_ruled_example : has_rule 0x05 privilege_calls ≡ true
unfolding has_rule validator_calls
validated_commands_ruled_example = validated_commands_ruled 0x05 refl

-- The token is 7 and one client holds the counter.
abbrev held : SessionCas
held = record { value = 7; counter = 1 }

abbrev history : List Operation
history = set_token 9 7 ∷ increment 7 ∷ set_token 9 0 ∷ decrement ∷ []

history-Legal : Legal 0 history held
unfolding step others_after cas increment_session_counter decrement_session_counter
history-Legal = (tt, (tt, (tt, (omega arith, tt))))

run_protected_example :
    (done : SessionCas) × (run history held ≡ some done) × (done.value ≡ 7) × (1 ≤ done.counter)
run_protected_example = run_protected history held 0 refl (omega arith) history-Legal

-- The token is 7 and nobody holds the counter.
abbrev idle : SessionCas
idle = record { value = 7; counter = 0 }

cas_once_example :
    let s' = (cas idle 8 7 idle).session in
    ((cas s' 9 7 s').status ≡ key_eexists)
    × ((cas s' 9 7 s').current ≡ 8)
    × (get_cas_value (cas s' 9 7 s').session ≡ 8)
unfolding cas
cas_once_example = cas_once 8 9 7 idle (λ e. omega arith) (λ e. omega arith) refl
