-- ===== src/Connection/Receive.antt =====
-- Receiving a packet: try_read_mcbp_command, dispatch_bin_command and bin_read_chunk of
-- daemon/mcbp_executors.cc, and conn_nread of daemon/statemachine_mcbp.cc. The choice of the bucket's
-- engine, the probes, the statistics and libevent's registration are left out.
use memcached.Common.{
  ℕ, zero, suc, ◌+◌, ◌-◌, ◌*◌, ◌%◌, ◌/◌, ◌^◌, Bool, true, false, ◌||◌, ◌&&◌, not, ◌==◌, ◌!=◌, ltb,
  leb, if◌then◌else◌, Option, none, some, List, [], ◌∷◌, length,
}
use memcached.Protocol.{
  Header, Status, einval, not_initialized, auth_error, is_raw, is_valid, magic_req, magic_res,
  ntohs, ntohl,
}
use memcached.Protocol.Opcodes
use memcached.Protocol.Wire.{read_header}
use memcached.Connection.{
  conn_nread, conn_closing, Connection, NetBuf, Environment, set_state, mcbp_write_packet,
}

-- memmove of `n` bytes
abbrev pub memmove : ℕ → ℕ → ℕ → (ℕ → ℕ) → ℕ → ℕ
memmove to from n memory i =
    if leb to i && ltb i (to + n) then memory (from + (i - to)) else memory i

abbrev pub header_size : ℕ
header_size = 24

abbrev pub key_max_length : ℕ
key_max_length = 250

unfoldable pub authenticated : Connection → Bool
authenticated c =
    c.cmd == Opcodes.cmd_sasl_list_mechs
    || c.cmd == Opcodes.cmd_sasl_auth
    || c.cmd == Opcodes.cmd_sasl_step
    || c.cmd == Opcodes.cmd_version
    || c.cmd == Opcodes.cmd_hello
    || c.is_authenticated

unfoldable pub is_initialized : Environment → Connection → ℕ → Bool
is_initialized env c opcode =
    c.admin
    || env.server_initialized
    || opcode == Opcodes.cmd_sasl_list_mechs
    || opcode == Opcodes.cmd_sasl_auth
    || opcode == Opcodes.cmd_sasl_step

unfoldable pub invalid_datatype : Connection → Bool
invalid_datatype c =
    if is_raw c.header.datatype || c.supports_datatype
    then not (is_valid c.header.datatype)
    else true

-- The loop that doubles the size; each round adds at least 1 where the size is not 0.
unfoldable pub grow : ℕ → ℕ → ℕ → Option ℕ
grow zero size nsize = none
grow (suc fuel) size nsize = elim (ltb nsize size) [
  | true ↦ grow fuel size (nsize * 2)
  | false ↦ some nsize
]

unfoldable pub repack : NetBuf → NetBuf
repack read =
    if read.curr == 0
    then read
    else record read { memory = memmove 0 read.curr read.bytes read.memory; curr = 0 }

-- The item to read starts behind the header.
unfoldable pub start_nread : Connection → Connection
start_nread c = set_state conn_nread (record c { ritem = c.read.curr + header_size })

unfoldable pub with_room : Environment → Connection → ℕ → Connection
with_room env c nsize =
    if nsize != c.read.size
    then (if env.can_realloc
        then start_nread (record c { read = repack (record c.read { size = nsize % 2 ^ 32 }) })
        else set_state conn_closing c)
    else start_nread (record c { read = repack c.read })

unfoldable pub bin_read_chunk : Environment → ℕ → Connection → Option Connection
bin_read_chunk env chunk c =
    let c' : Connection = record c { rlbytes = chunk } in
    if ltb c.read.size (chunk + (c.read.curr + header_size))
    then elim (grow (suc (chunk + header_size)) (chunk + header_size) c.read.size) [
      | none ↦ none
      | some nsize ↦ some (with_room env c' nsize)
    ]
    else some (start_nread c')

unfoldable pub close_after : Environment → Status → Connection → Connection
close_after env status c = record (mcbp_write_packet env status c) { write_and_go = conn_closing }

unfoldable pub dispatch_bin_command : Environment → Connection → Option Connection
dispatch_bin_command env c =
    let started : Connection = record c { start = if c.start == 0 then env.now else c.start } in
    let replying : Connection = record started { no_reply = false } in
    if not (is_initialized env c c.header.opcode)
    then some (close_after env not_initialized c)
    else if env.require_sasl && not (authenticated c)
    then some (close_after env auth_error c)
    else if invalid_datatype c
    then some (close_after env einval c)
    else if ltb key_max_length c.header.keylen
    then some (close_after env einval started)
    else if ltb env.max_packet_size c.header.bodylen
    then some (close_after env einval replying)
    else bin_read_chunk env c.header.bodylen replying

abbrev pub ntohll : ℕ → ℕ
ntohll x = ntohl (x % 2 ^ 32) * 2 ^ 32 + ntohl (x / 2 ^ 32)

-- binary_header, from the packet's bytes
unfoldable pub host_header : (ℕ → ℕ) → Header
host_header bytes =
    let raw = read_header bytes in
    record raw {
      keylen = ntohs raw.keylen;
      bodylen = ntohl raw.bodylen;
      vbucket = ntohs raw.vbucket;
      cas = ntohll raw.cas;
    }

-- The return values 0, -1 and 1 of try_read_mcbp_command.
pub data ReadResult : Type 0 where
  need_more failed dispatched : ReadResult

-- A dispatched packet's header is behind `curr`.
abbrev pub consume_header : Connection → Connection
consume_header c = record c {
  read = record c.read { bytes = c.read.bytes - header_size; curr = c.read.curr + header_size };
}

-- `has_response_handler` says which opcodes have an entry in response_handlers.
unfoldable pub try_read_mcbp_command :
    (ℕ → Bool) → Environment → Connection → Option (ReadResult × Connection)
try_read_mcbp_command has_response_handler env c =
    let header = host_header (λ i. c.read.memory (c.read.curr + i)) in
    let c1 : Connection = record c { header = header } in
    let c2 : Connection = record c1 { queued = none; cmd = header.opcode; cas = 0 } in
    if ltb c.read.bytes header_size
    then some (need_more, c)
    else if header.magic != magic_req
        && not (header.magic == magic_res && has_response_handler header.opcode)
    then some (failed, set_state conn_closing c1)
    else if not env.can_add_msg_hdr
    then some (failed, set_state conn_closing (record c1 { queued = none }))
    else elim (dispatch_bin_command env c2) [
      | none ↦ none
      | some c3 ↦ some (dispatched, consume_header c3)
    ]

-- What recv answers: some bytes, the end of the stream, that it would block, or an error.
pub data Received : Type 0 where
  received : List ℕ → Received
  end_of_stream would_block network_error : Received

-- The bytes of a list, put at an offset.
abbrev pub store : ℕ → List ℕ → (ℕ → ℕ) → ℕ → ℕ
store at [] memory = memory
store at (b ∷ bytes) memory = store (at + 1) bytes (λ i. if i == at then b else memory i)

-- What is left over in the buffer goes to the item first.
unfoldable pub take_leftover : Connection → Connection
take_leftover c =
    let tocopy = if ltb c.rlbytes c.read.bytes then c.rlbytes else c.read.bytes in
    if ltb 0 c.read.bytes
    then record c {
      read = record {
        memory =
            if c.ritem != c.read.curr
            then memmove c.ritem c.read.curr tocopy c.read.memory
            else c.read.memory;
        size = c.read.size;
        curr = c.read.curr + tocopy;
        bytes = c.read.bytes - tocopy;
      };
      ritem = c.ritem + tocopy;
      rlbytes = c.rlbytes - tocopy;
    }
    else c

unfoldable pub take_received : List ℕ → Connection → Connection
take_received bytes c = record c {
  read = record c.read {
    memory = store c.ritem bytes c.read.memory;
    curr = if c.read.curr == c.ritem then c.read.curr + length bytes else c.read.curr;
  };
  ritem = c.ritem + length bytes;
  rlbytes = c.rlbytes - length bytes;
}

unfoldable pub recv_item : Environment → Received → Connection → Bool × Connection
recv_item env (received bytes) c = (true, take_received bytes c)
recv_item env end_of_stream c = (true, set_state conn_closing c)
recv_item env would_block c =
    if env.can_update_event then (false, c) else (true, set_state conn_closing c)
recv_item env network_error c = (true, set_state conn_closing c)

-- conn_nread: whether the state machine goes on, and the connection. `complete` is
-- mcbp_complete_nread.
unfoldable pub conn_nread_step :
    (Connection → Connection) → Environment → Bool → Received → Connection → Bool × Connection
conn_nread_step complete env bucket_dying answer c =
    let completed = complete (record c { ewouldblock = false }) in
    let c' = take_leftover c in
    if bucket_dying
    then (true, set_state conn_closing c)
    else if c.rlbytes == 0
    then (not completed.ewouldblock, completed)
    else if ltb 0 c.read.bytes && c'.rlbytes == 0
    then (true, c')
    else recv_item env answer c'
