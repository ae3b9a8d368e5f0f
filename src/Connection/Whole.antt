-- ===== src/Connection/Whole.antt =====
-- From the socket to the executor: what is known of a packet when its command runs.
use memcached.Common.{
  ℕ, ◌+◌, ◌-◌, ◌≤◌, ◌<◌, ◌≡◌, ◌≢◌, refl, sym, ◌∙◌, ap, subst, false, true, arith, List, ◌^◌, ◌⊎◌,
  inl, inr, some, none, Bool, ltb, not, ◌!=◌,
}
use memcached.Protocol.{magic_req, HeaderFits, success}
use memcached.Protocol.Wire.{read_header, read_packet, load16, load32, load64}
use memcached.Chain.Table.{Registered}
use memcached.Validators.Names.{validate}
use memcached.Validators.Addresses.{validator_addressed, status_returns}
use memcached.Validators.Table.{validator_calls, mcbp_validator_chains}
use memcached.Validators.Dispatch.{validate_command_iff}
use memcached.Connection.Assembly.{Receiving, Ready, Started, bin_read_chunk-Started}
use memcached.Connection.Gate.{Admitted, replying, dispatch_gate}
use memcached.Connection.Stream.{Reads, read_none, read_some, packet_assembled}
use memcached.Connection.{conn_nread, conn_closing, Connection, Environment, Header}
use memcached.Connection.Receive.{
  header_size, consume_header, dispatch_bin_command, try_read_mcbp_command, dispatched, host_header,
  take_leftover, conn_nread_step, recv_item, take_received, received,
}
use memcached.Connection.Process.{Rules, packet_at, get_packet, packet_status, packet_status_iff}

-- Where binary_header is what the packet in the buffer says and the bucket's chains are those of the
-- initialisation, a packet that passes its checks fits its header, and each validator that is
-- registered for its opcode accepts it.
pub checked_packet :
    (rules : Rules) (c : Connection)
    → rules.validators ≡ mcbp_validator_chains
    → c.header ≡ host_header (λ i. c.read.memory (packet_at c + i))
    → packet_status rules c ≡ success
    → HeaderFits (get_packet c)
      × Registered (λ v. validate v (get_packet c) ≡ success) c.header.opcode validator_calls
unfolding get_packet read_packet host_header read_header
checked_packet rules c chains header valid =
    let (fits, accepted) = (packet_status_iff rules c).0 valid in
    (
      subst (λ h. h.keylen + h.extlen ≤ h.bodylen) header fits,
      (validate_command_iff c.header.opcode (get_packet c)).0 (rw chains at accepted),
    )

-- A header is what its 24 bytes say.
host_header_bytes : (f g : ℕ → ℕ) → ((i : ℕ) → i < 24 → f i ≡ g i) → host_header f ≡ host_header g
unfolding host_header read_header load16 load32 load64
host_header_bytes f g same =
    let e : (i : ℕ) → i < 24 → f i ≡ g i = same in
    cc (
      e 0 (omega arith),
      e 1 (omega arith),
      e 2 (omega arith),
      e 3 (omega arith),
      e 4 (omega arith),
      e 5 (omega arith),
      e 6 (omega arith),
      e 7 (omega arith),
      e 8 (omega arith),
      e 9 (omega arith),
      e 10 (omega arith),
      e 11 (omega arith),
      e 12 (omega arith),
      e 13 (omega arith),
      e 14 (omega arith),
      e 15 (omega arith),
      e 16 (omega arith),
      e 17 (omega arith),
      e 18 (omega arith),
      e 19 (omega arith),
      e 20 (omega arith),
      e 21 (omega arith),
      e 22 (omega arith),
      e 23 (omega arith),
    )

take_leftover_header : (c : Connection) → (take_leftover c).header ≡ c.header
unfolding take_leftover
take_leftover_header c = ground arith

conn_nread_step_header :
    (complete : Connection → Connection) (env : Environment) (bytes : List ℕ) (c : Connection)
    → c.rlbytes ≢ 0
    → (conn_nread_step complete env false (received bytes) c).1.header ≡ c.header
unfolding conn_nread_step recv_item take_received
conn_nread_step_header complete env bytes c lacks = ground (arith, take_leftover_header c)

Reads-header :
    (stream : ℕ → ℕ) (bodylen : ℕ) (complete : Connection → Connection) (env : Environment)
    (c d : Connection)
    → Reads stream bodylen complete env c d
    → d.header ≡ c.header
Reads-header stream bodylen complete env c _ (read_none _) = refl
Reads-header stream bodylen complete env c d (read_some _ _ bytes lacks arrives le rest) =
    Reads-header stream bodylen complete env _ d rest
    ∙ conn_nread_step_header complete env bytes c lacks

-- Let a connection be receiving a packet whose header it has taken from the stream. When, after any
-- number of socket reads that bring the stream's next bytes, nothing is missing any more, the
-- bucket's chains are those of the initialisation and the packet passes its checks, then the
-- connection's header is still the stream's, the packet in the buffer fits its header, and every
-- validator that is registered for its opcode accepts it.
pub read_packet_checked :
    (stream : ℕ → ℕ) (complete : Connection → Connection) (env : Environment) (rules : Rules)
    (got : ℕ) (c d : Connection)
    → Receiving stream c.header.bodylen got c
    → c.header ≡ host_header stream
    → Reads stream c.header.bodylen complete env c d
    → d.rlbytes ≡ 0
    → rules.validators ≡ mcbp_validator_chains
    → packet_status rules d ≡ success
    → (d.header ≡ host_header stream)
      × HeaderFits (get_packet d)
      × Registered (λ v. validate v (get_packet d) ≡ success) d.header.opcode validator_calls
read_packet_checked stream complete env rules got c d r header reads full chains valid =
    let kept : d.header ≡ c.header = Reads-header stream c.header.bodylen complete env c d reads in
    let same : (i : ℕ) → i < 24 → stream i ≡ d.read.memory (packet_at d + i) = λ i lt.
      sym
        (packet_assembled stream c.header.bodylen complete env got c d r reads full i
          (omega arith)).2
      ∙ ap (λ (n : ℕ). d.read.memory (d.read.curr - (n + header_size) + i))
          (sym (ap (λ (h : Header). h.bodylen) kept)) in
    let checked =
      checked_packet rules d chains
        (kept ∙ header ∙ host_header_bytes stream (λ i. d.read.memory (packet_at d + i)) same)
        valid in
    (kept ∙ header, checked.0, checked.1)

-- The connection as it is dispatched, with a header.
abbrev pub parsed : Header → Connection → Connection
parsed header c = record c { header = header; queued = none; cmd = header.opcode; cas = 0 }

dispatch-Started :
    (stream : ℕ → ℕ) (env : Environment) (c : Connection)
    → Ready stream c.read
    → c.read.size < 2 ^ 32
    → env.max_packet_size + header_size ≤ 2 ^ 31
    → Admitted env c
    → (done : Connection) × (dispatch_bin_command env c ≡ some done)
      × Started stream c.header.bodylen c.header done
dispatch-Started stream env c ready width small admitted = elim (dispatch_gate env c) [
  | inl (a, reads) ↦
      let (done, ran, started) =
        bin_read_chunk-Started stream env c.header.bodylen (replying env c) ready width
          (omega (arith, admitted.body_small)) in
      (done, reads ∙ ran, started)
  | inr (refused, done, ran, rest) ↦ absurd (refused admitted)
]

try_read_dispatched :
    (has_handler : ℕ → Bool) (env : Environment) (c done : Connection) (header : Header)
    → ltb c.read.bytes header_size ≡ false
    → host_header (λ i. c.read.memory (c.read.curr + i)) ≡ header
    → (header.magic != magic_req) ≡ false
    → not env.can_add_msg_hdr ≡ false
    → dispatch_bin_command env (parsed header c) ≡ some done
    → try_read_mcbp_command has_handler env c ≡ some (dispatched, consume_header done)
unfolding try_read_mcbp_command
try_read_dispatched has_handler env c done header whole same magic can ran =
    rw (whole, same, magic, can, ran) refl

-- Let a buffer of less than 2^32 bytes hold a request's header at least, the limit on a packet's
-- size be at most 2^31 bytes with the header, a message header be added, and the request's header be
-- admitted. Then try_read_mcbp_command dispatches it, takes its header over in host order, and
-- either the connection closes, or it reads on: the header is consumed, and the buffer has room for
-- the whole body.
pub try_read_mcbp_command-Receiving :
    (stream : ℕ → ℕ) (has_handler : ℕ → Bool) (env : Environment) (c : Connection)
    → Ready stream c.read
    → c.read.size < 2 ^ 32
    → env.max_packet_size + header_size ≤ 2 ^ 31
    → env.can_add_msg_hdr ≡ true
    → (host_header stream).magic ≡ magic_req
    → Admitted env (parsed (host_header stream) c)
    → (done : Connection) × (try_read_mcbp_command has_handler env c ≡ some (dispatched, done))
      × (done.header ≡ host_header stream)
      × ((done.state ≡ conn_closing)
          ⊎ ((done.state ≡ conn_nread)
              × Receiving stream (host_header stream).bodylen header_size done))
try_read_mcbp_command-Receiving stream has_handler env c ready width small can magic admitted =
    let (done, ran, (kept, started)) =
      dispatch-Started stream env (parsed (host_header stream) c) ready width small admitted in
    let same : host_header (λ i. c.read.memory (c.read.curr + i)) ≡ host_header stream =
      host_header_bytes (λ i. c.read.memory (c.read.curr + i)) stream
        (λ i lt. ready.held i (omega (arith, ready.whole_header))) in
    let whole : ltb c.read.bytes header_size ≡ false = ground (arith, ready.whole_header) in
    (
      consume_header done,
      try_read_dispatched has_handler env c done (host_header stream) whole same (ground arith)
          (ground arith) ran,
      kept,
      started,
    )
