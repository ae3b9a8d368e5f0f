-- ===== src/Connection/Outcome.antt =====
-- What becomes of a packet that has been read.
use memcached.Common.{◌≡◌, ◌≢◌, refl, sym, subst, ◌∙◌, ◌⊎◌, inl, inr}
use memcached.Protocol.{Status, success, not_my_vbucket, eaccess, auth_stale}
use memcached.Privileges.Checks.{PrivilegeAccess, ok, fail, stale}
use memcached.Privileges.Table.{invoke_privileges}
use memcached.Connection.{
  Connection, Environment, conn_mwrite, conn_new_cmd, set_state, add_header, write_error,
  mcbp_write_packet,
}
use memcached.Connection.Process.{
  Handlers, Rules, subject, packet_status, execute, run_checked, process_bin_packet,
}
use memcached.Connection.Room.{set_state-mwrite}
use memcached.Connection.Gate.{Refused, close_after-Refused}

run_checked_lem :
    (handlers : Handlers) (env : Environment) (c : Connection) (result : Status)
    → result ≢ not_my_vbucket
    → ((result ≡ success) × (run_checked handlers env c result ≡ execute handlers c))
      ⊎ ((result ≢ success) × Refused env c (run_checked handlers env c result))
unfolding run_checked
run_checked_lem handlers env c success other = inl (refl, refl)
run_checked_lem handlers env c not_my_vbucket other = absurd (other refl)
run_checked_lem handlers env c result other =
    inr ((λ e. cc), close_after-Refused env c result (λ e. cc) (λ e. cc))

-- A connection that writes an error and goes on.
abbrev pub Denied : Connection → Connection → Type 0
Denied c done =
    (done.state ≡ conn_mwrite) × (done.write_and_go ≡ conn_new_cmd) × (done.read ≡ c.read)

write_error-Denied :
    (env : Environment) (c : Connection) (status : Status) → Denied c (write_error env status c)
unfolding write_error add_header set_state
write_error-Denied env c status = (set_state-mwrite c, refl, refl)

access_cases : (r : PrivilegeAccess) → (r ≡ ok) ⊎ ((r ≡ fail) ⊎ (r ≡ stale))
access_cases ok = inl refl
access_cases fail = inr (inl refl)
access_cases stale = inr (inr refl)

-- Unless the checks come to not_my_vbucket, a packet that has been read ends in one of three ways:
-- its privileges are granted, it is valid and it is run; its privileges are granted, it is not
-- valid, and the connection writes an error response to the request, where memory allows one, and
-- closes; or its privileges are not granted, and the connection writes and goes on with its next
-- command, its buffer unchanged.
pub process_gate :
    (handlers : Handlers) (rules : Rules) (env : Environment) (c : Connection)
    → packet_status rules c ≢ not_my_vbucket
    → let access = invoke_privileges rules.privileges c.header.opcode (subject rules c) in
      let done = process_bin_packet handlers rules env c in
      ((access ≡ ok) × (packet_status rules c ≡ success) × (done ≡ execute handlers c))
      ⊎ (((access ≡ ok) × (packet_status rules c ≢ success) × Refused env c done)
          ⊎ ((access ≢ ok) × Denied c done))
unfolding process_bin_packet mcbp_write_packet
process_gate handlers rules env c other =
    elim (access_cases (invoke_privileges rules.privileges c.header.opcode (subject rules c))) [
      | inl granted ↦
          let e : process_bin_packet handlers rules env c
              ≡ run_checked handlers env c (packet_status rules c) =
            rw (process_bin_packet, granted) refl in
          elim (run_checked_lem handlers env c (packet_status rules c) other) [
            | inl (valid, ran) ↦ inl (granted, valid, e ∙ ran)
            | inr (invalid, refused) ↦
                inr (inl (granted, invalid, subst (Refused env c) (sym e) refused))
          ]
      | inr (inl failed) ↦ inr (
          inr (
            λ e. fail≢ok (sym failed ∙ e),
            subst (Denied c)
                (let e : write_error env eaccess c ≡ process_bin_packet handlers rules env c =
                    rw (process_bin_packet, failed) refl in
                  e)
                (write_error-Denied env c eaccess),
          ))
      | inr (inr stale_context) ↦ inr (
          inr (
            λ e. stale≢ok (sym stale_context ∙ e),
            subst (Denied c)
                (let e : write_error env auth_stale c ≡ process_bin_packet handlers rules env c =
                    rw (process_bin_packet, stale_context) refl in
                  e)
                (write_error-Denied env c auth_stale),
          ))
    ]
  where
    fail≢ok : fail ≡ ok → ⊥
    fail≢ok e = cc

    stale≢ok : stale ≡ ok → ⊥
    stale≢ok e = cc
