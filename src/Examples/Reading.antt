-- ===== src/Examples/Reading.antt =====
-- The theorems on receiving and running a packet, on a GET that has come in one piece.
use memcached.Validators.Kv.{get_validator}
use memcached.Chain.{invoke, push_unique}
use memcached.Protocol.Wire.{read_header, read_packet}
use memcached.Common.{
  ℕ, ◌+◌, ◌-◌, ◌≤◌, ◌≡◌, ◌≢◌, refl, sym, ◌∙◌, ap, ◌⊎◌, true, false, some, none, List, [], ◌∷◌,
  arith,
}
use memcached.Protocol.{Header, HeaderFits, success, not_my_vbucket, ntohs, ntohl, is_raw, is_valid}
use memcached.Chain.Table.{Registered, push_all}
use memcached.Privileges.Checks.{ok}
use memcached.Privileges.Table.{privilege_chains, invoke_privileges}
use memcached.Validators.Names.{validate}
use memcached.Validators.Addresses.{validator_addressed, status_returns}
use memcached.Validators.Table.{
  validator_calls, validate_command, mcbp_validator_chains, initialize_mcbp_validator_chains,
}
use memcached.Connection.{
  conn_closing, conn_nread, Connection, Environment, NetBuf, conn_new_cmd, conn_parse_cmd,
}
use memcached.Connection.Receive.{
  try_read_mcbp_command, dispatched, host_header, dispatch_bin_command, bin_read_chunk,
  conn_nread_step, take_leftover, header_size, is_initialized, authenticated, invalid_datatype,
}
use memcached.Connection.Process.{
  Handlers, Rules, subject, get_packet, packet_status, execute, process_bin_packet,
  validate_bin_header,
}
use memcached.Connection.Assembly.{Ready, Receiving, Started, bin_read_chunk-Started}
use memcached.Connection.Stream.{Reads, read_none, read_some, packet_assembled}
use memcached.Connection.Gate.{Admitted, Refused, replying, dispatch_gate}
use memcached.Connection.Outcome.{Denied, process_gate}
use memcached.Connection.Whole.{read_packet_checked, parsed, try_read_mcbp_command-Receiving}
use memcached.Examples.Packets.{bytes_of}

abbrev pub server : Environment
server = record {
  server_initialized = true;
  require_sasl = true;
  max_packet_size = 0x1e00000;
  now = 1;
  can_realloc = true;
  can_add_msg_hdr = true;
  can_add_iov = true;
  can_update_event = true;
  vb_map = none;
}

-- GET of the key "k" as it comes in, 25 bytes.
abbrev wire : List ℕ
wire =
    0x80 ∷ 0 ∷ 0 ∷ 1 ∷ 0 ∷ 0 ∷ 0 ∷ 0 ∷ 0 ∷ 0 ∷ 0 ∷ 1 ∷ 0 ∷ 0 ∷ 0 ∷ 0 ∷ 0 ∷ 0 ∷ 0 ∷ 0 ∷ 0 ∷ 0 ∷ 0 ∷ 0
    ∷ 0x6b ∷ []

abbrev header_k : Header
header_k = record {
  magic = 0x80;
  opcode = 0;
  keylen = 1;
  extlen = 0;
  datatype = 0;
  vbucket = 0;
  bodylen = 1;
  opaque = 0;
  cas = 0;
}

abbrev with_buffer : NetBuf → ℕ → ℕ → Connection
with_buffer read ritem rlbytes = record {
  header = header_k;
  read = read;
  ritem = ritem;
  rlbytes = rlbytes;
  state = conn_parse_cmd;
  write_and_go = conn_new_cmd;
  admin = false;
  is_authenticated = true;
  supports_datatype = false;
  tap = false;
  dcp = false;
  no_reply = false;
  ewouldblock = false;
  start = 0;
  cas = 0;
  cmd = 0;
  current_event = 0;
  queued = none;
}

-- All 25 bytes are in a buffer of 32, the header still unread.
abbrev pub arrived : Connection
arrived = with_buffer (record { memory = bytes_of wire; size = 32; curr = 0; bytes = 25 }) 0 0

-- The header has been read.
abbrev reading : Connection
reading = with_buffer (record { memory = bytes_of wire; size = 32; curr = 24; bytes = 1 }) 24 1

abbrev pub no_handlers : Handlers
no_handlers = record {
  executor = λ opcode. none;
  unknown = λ c. c;
  response_handler = λ opcode. none;
}

abbrev pub rules : Rules
rules = record {
  privileges = privilege_chains false;
  validators = mcbp_validator_chains;
  testing = false;
}

arrived-Ready : Ready (bytes_of wire) arrived.read
arrived-Ready = record {
  held = λ i lt. let e : 0 + i ≡ i = omega arith in ap (bytes_of wire) e;
  whole_header = omega arith;
  fits = omega arith;
}

bin_read_chunk-Started_example :
    (done : Connection) × (bin_read_chunk server 1 arrived ≡ some done)
    × Started (bytes_of wire) 1 header_k done
bin_read_chunk-Started_example =
    bin_read_chunk-Started (bytes_of wire) server 1 arrived arrived-Ready (omega arith)
      (omega arith)

reading-Receiving : Receiving (bytes_of wire) 1 24 reading
reading-Receiving = record {
  position = refl;
  start = omega arith;
  header_read = omega arith;
  missing = refl;
  room = omega arith;
  unread = omega arith;
  packet = λ i lt. let e : 0 + i ≡ i = omega arith in ap (bytes_of wire) e;
  rest = λ i lt. refl;
}

abbrev unchanged : Connection → Connection
unchanged c = c

abbrev complete_packet : Connection
complete_packet =
    with_buffer (record { memory = bytes_of wire; size = 32; curr = 25; bytes = 0 }) 25 0

reading-Reads : Reads (bytes_of wire) 1 unchanged server reading complete_packet
unfolding conn_nread_step take_leftover
reading-Reads =
    read_some reading complete_packet [] (λ e. omega arith) tt (omega arith)
      (read_none complete_packet)

packet_assembled_example :
    (25 ≤ complete_packet.read.curr)
    × (complete_packet.read.curr + complete_packet.read.bytes ≤ complete_packet.read.size)
    × (complete_packet.read.memory (complete_packet.read.curr - 25 + 24) ≡ 0x6b)
packet_assembled_example =
    packet_assembled (bytes_of wire) 1 unchanged server 24 reading complete_packet reading-Receiving
      reading-Reads refl 24 (omega arith)

header_k_lem : header_k ≡ host_header (bytes_of wire)
unfolding host_header read_header ntohs ntohl
header_k_lem = refl

complete_packet_status : packet_status rules complete_packet ≡ success
unfolding packet_status validate_bin_header validate_command invoke mcbp_validator_chains
    initialize_mcbp_validator_chains push_all push_unique validate get_validator get_packet
    read_packet ntohs ntohl
complete_packet_status = refl

read_packet_checked_example :
    (header_k ≡ host_header (bytes_of wire))
    × HeaderFits (get_packet complete_packet)
    × Registered (λ v. validate v (get_packet complete_packet) ≡ success) 0 validator_calls
read_packet_checked_example =
    read_packet_checked (bytes_of wire) unchanged server rules 24 reading complete_packet
      reading-Receiving header_k_lem reading-Reads refl refl complete_packet_status

dispatch_gate_example :
    (Admitted server arrived
      × (dispatch_bin_command server arrived ≡ bin_read_chunk server 1 (replying server arrived)))
    ⊎ ((Admitted server arrived → ⊥)
        × (done : Connection) × (dispatch_bin_command server arrived ≡ some done)
        × Refused server arrived done)
dispatch_gate_example = dispatch_gate server arrived

status≢not_my_vbucket : packet_status rules complete_packet ≢ not_my_vbucket
status≢not_my_vbucket e = clash (sym complete_packet_status ∙ e)
  where
    clash : success ≢ not_my_vbucket
    clash p = cc

process_gate_example :
    let access = invoke_privileges (privilege_chains false) 0 (subject rules complete_packet) in
    let done = process_bin_packet no_handlers rules server complete_packet in
    ((access ≡ ok)
      × (packet_status rules complete_packet ≡ success)
      × (done ≡ execute no_handlers complete_packet))
    ⊎ (((access ≡ ok)
          × (packet_status rules complete_packet ≢ success)
          × Refused server complete_packet done)
        ⊎ ((access ≢ ok) × Denied complete_packet done))
process_gate_example = process_gate no_handlers rules server complete_packet status≢not_my_vbucket

arrived-Admitted : Admitted server (parsed (host_header (bytes_of wire)) arrived)
unfolding host_header is_initialized authenticated read_header invalid_datatype is_raw is_valid
    ntohs ntohl
arrived-Admitted = record {
  initialized = refl;
  authentic = λ required. refl;
  datatype = refl;
  key_short = omega arith;
  body_small = omega arith;
}

try_read_mcbp_command-Receiving_example :
    (done : Connection) × (try_read_mcbp_command (λ opcode. false) server arrived
      ≡ some (dispatched, done))
    × (done.header ≡ host_header (bytes_of wire))
    × ((done.state ≡ conn_closing)
        ⊎ ((done.state ≡ conn_nread) × Receiving (bytes_of wire) 1 header_size done))
unfolding host_header read_header ntohl
try_read_mcbp_command-Receiving_example =
    try_read_mcbp_command-Receiving (bytes_of wire) (λ opcode. false) server arrived arrived-Ready
      (omega arith) (omega arith) refl refl arrived-Admitted
