-- ===== src/Connection/Gate.antt =====
-- Which packets are read, and what becomes of the others.
use memcached.Common.{
  ◌≤◌, ◌≡◌, ◌≢◌, refl, ◌⊎◌, inl, inr, Bool, true, false, not, ◌&&◌, Bool-cases, ltb, ◌==◌, arith,
  some, none, if◌then◌else◌,
}
use memcached.Protocol.{Status, success, not_my_vbucket, einval, not_initialized, auth_error}
use memcached.Connection.{
  Connection, Environment, conn_closing, conn_mwrite, set_state, add_header, write_error,
  mcbp_write_packet,
}
use memcached.Connection.Receive.{
  authenticated, is_initialized, invalid_datatype, close_after, bin_read_chunk,
  dispatch_bin_command,
}
use memcached.Connection.Room.{set_state-mwrite}

-- What a packet's header and its connection must be for the body to be read.
pub record Admitted (env : Environment) (c : Connection) : Type 0 where
  pub initialized : is_initialized env c c.header.opcode ≡ true
  pub authentic : env.require_sasl ≡ true → authenticated c ≡ true
  pub datatype : invalid_datatype c ≡ false
  pub key_short : c.header.keylen ≤ 250
  pub body_small : c.header.bodylen ≤ env.max_packet_size

-- The connection as it is when the body starts to be read.
abbrev pub replying : Environment → Connection → Connection
replying env c = record c { start = if c.start == 0 then env.now else c.start; no_reply = false }

-- A connection that writes an error and closes then; what it writes is a response to the request.
pub record Refused (env : Environment) (c done : Connection) : Type 0 where
  pub writes : done.state ≡ conn_mwrite
  pub closes : done.write_and_go ≡ conn_closing
  pub status : Status
  pub error : status ≢ success
  pub answer : done.queued ≡ (
      if env.can_add_msg_hdr && env.can_add_iov
      then some (record {
        status = status;
        opcode = c.header.opcode;
        opaque = c.header.opaque;
        cas = c.cas;
      })
      else none)
  pub same_buffer : done.read ≡ c.read

-- An error is written as such, but for the two statuses that mcbp_write_packet treats on its own.
mcbp_write_packet_error :
    (env : Environment) (c : Connection) (status : Status)
    → status ≢ success
    → status ≢ not_my_vbucket
    → mcbp_write_packet env status c ≡ write_error env status c
unfolding mcbp_write_packet
mcbp_write_packet_error env c success bad other = absurd (bad refl)
mcbp_write_packet_error env c not_my_vbucket bad other = absurd (other refl)
mcbp_write_packet_error env c _ bad other = refl

write_error-Refused :
    (env : Environment) (c : Connection) (status : Status)
    → status ≢ success
    → Refused env c (record (write_error env status c) { write_and_go = conn_closing })
unfolding write_error add_header set_state
write_error-Refused env c status bad = record {
  writes = set_state-mwrite c;
  closes = refl;
  status = status;
  error = bad;
  answer = refl;
  same_buffer = refl;
}

pub close_after-Refused :
    (env : Environment) (c : Connection) (status : Status)
    → status ≢ success
    → status ≢ not_my_vbucket
    → Refused env c (close_after env status c)
unfolding close_after
close_after-Refused env c status bad other =
    rw (mcbp_write_packet_error env c status bad other) (write_error-Refused env c status bad)

abbrev started : Environment → Connection → Connection
started env c = record c { start = if c.start == 0 then env.now else c.start }

started-Refused :
    (env : Environment) (c done : Connection)
    → Refused env (started env c) done
    → Refused env c done
started-Refused env c done r = record {
  writes = r.writes;
  closes = r.closes;
  status = r.status;
  error = r.error;
  answer = r.answer;
  same_buffer = r.same_buffer;
}

replying-Refused :
    (env : Environment) (c done : Connection)
    → Refused env (replying env c) done
    → Refused env c done
replying-Refused env c done r = record {
  writes = r.writes;
  closes = r.closes;
  status = r.status;
  error = r.error;
  answer = r.answer;
  same_buffer = r.same_buffer;
}

-- Either a packet's header is admitted, that is, the server is initialised for it, the client
-- authenticated where that is required, the data type valid, the key at most 250 and the body at
-- most max_packet_size bytes long, and then the body is read; or it is not admitted, and the
-- connection writes an error response to the request, where memory allows one, its buffer unchanged,
-- and closes.
pub dispatch_gate :
    (env : Environment) (c : Connection)
    → (Admitted env c
        × (dispatch_bin_command env c ≡ bin_read_chunk env c.header.bodylen (replying env c)))
      ⊎ ((Admitted env c → ⊥)
          × (done : Connection) × (dispatch_bin_command env c ≡ some done)
          × Refused env c done)
unfolding dispatch_bin_command
dispatch_gate env c = elim (Bool-cases (is_initialized env c c.header.opcode)) [
  | inr uninitialized ↦ inr (
    λ a. clash uninitialized a.initialized,
    close_after env not_initialized c,
    rw uninitialized refl,
    close_after-Refused env c not_initialized (λ e. cc) (λ e. cc),
  )
  | inl initialized ↦ elim (Bool-cases (env.require_sasl && not (authenticated c))) [
    | inl anonymous ↦ inr (
      λ a. clash2 anonymous a.authentic,
      close_after env auth_error c,
      rw (initialized, anonymous) refl,
      close_after-Refused env c auth_error (λ e. cc) (λ e. cc),
    )
    | inr authentic ↦ elim (Bool-cases (invalid_datatype c)) [
      | inl invalid ↦ inr (
        λ a. clash a.datatype invalid,
        close_after env einval c,
        rw (initialized, authentic, invalid) refl,
        close_after-Refused env c einval (λ e. cc) (λ e. cc),
      )
      | inr datatype ↦ elim (Bool-cases (ltb 250 c.header.keylen)) [
        | inl long ↦ inr (
          λ a. absurd (ground (arith, a.key_short)),
          close_after env einval (started env c),
          rw (initialized, authentic, datatype, long) refl,
          started-Refused env c _
              (close_after-Refused env (started env c) einval (λ e. cc) (λ e. cc)),
        )
        | inr short ↦ elim (Bool-cases (ltb env.max_packet_size c.header.bodylen)) [
          | inl large ↦ inr (
            λ a. absurd (ground (arith, a.body_small)),
            close_after env einval (replying env c),
            rw (initialized, authentic, datatype, short, large) refl,
            replying-Refused env c _
                (close_after-Refused env (replying env c) einval (λ e. cc) (λ e. cc)),
          )
          | inr small ↦ inl (
            record {
              initialized = initialized;
              authentic = implied authentic;
              datatype = datatype;
              key_short = ground arith;
              body_small = ground arith;
            },
            rw (initialized, authentic, datatype, short, small) refl,
          )
        ]
      ]
    ]
  ]
]
  where
    clash : {b : Bool} → b ≡ false → b ≡ true → ⊥
    clash p q = cc

    clash2 : {a b : Bool} → (a && not b) ≡ true → (a ≡ true → b ≡ true) → ⊥
    clash2 p q = ground arith

    implied : {a b : Bool} → (a && not b) ≡ false → a ≡ true → b ≡ true
    implied p q = ground arith
