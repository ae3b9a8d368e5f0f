-- ===== src/Lib.antt =====
-- memcached: the binary protocol's front end.
--
-- A client sends packets of a 24-byte header and a body. The server checks each packet in turn: the
-- connection's state, the privileges that its opcode requires, the header, and the validators that the
-- bucket has registered for the opcode; then the command's executor runs. Sub-document commands address
-- a path inside a document, or several at once, and their executor decodes the body a second time.
--
-- The modules, with the files of the repository that they model:
--   Common       shared tests, operators and lemmas on lists.
--   Protocol     include/memcached/protocol_binary.h: the header, the opcodes (Opcodes), the status codes;
--                Wire has the byte order. A field is the number that a little-endian host loads, so a
--                length is in network order until `ntohs` or `ntohl` swaps it, as in the source. A packet's
--                body is a function from offsets to bytes, defined behind the body too, since the code
--                can read there.
--   Chain        daemon/function_chain.h: `push_unique`, `invoke`, and the arrays of 256 chains (Table).
--   Validators   daemon/mcbp_validators.cc and .h: one function for each validator (Dcp, Admin, Kv, Bucket),
--                the registration (Table), and the dispatch. Names has a constructor for each validator, so
--                that a chain can hold it and compare its address. Format is the independent description
--                of the commands' formats, as a table.
--   Subdoc       daemon/subdocument_validators.cc, daemon/subdocument_traits.h and .cc,
--                daemon/subdocument.cc (subdoc_create_context) and daemon/subdocument_context.h.
--                Encoder: utilities/subdoc_encoder.cc and .h, the tools' side of these requests.
--   Privileges   daemon/mcbp_privileges.cc and .h, and Connection::checkPrivilege of daemon/connection.cc.
--   SessionCas   daemon/session_cas.cc and .h.
--   Connection   daemon/mcbp_executors.cc (try_read_mcbp_command, dispatch_bin_command, bin_read_chunk,
--                process_bin_packet, mcbp_complete_nread), daemon/statemachine_mcbp.cc (setCurrentTask,
--                conn_nread), daemon/mcbp.cc (the writing of a response), daemon/connection_mcbp.h.
--                Receive, Process and Network (tryReadNetwork of daemon/connection_mcbp.cc) have the
--                operations. A buffer is a function from offsets to bytes
--                with `curr` as an offset; what the allocator, the socket and the server's settings
--                answer is an argument (Environment, Received). The memory behind a grown buffer's old
--                end is unspecified, as cb_realloc leaves it.
--   Machine      daemon/statemachine_mcbp.cc: every task of a connection (Commands, Completion, Loop),
--                runStateMachinery and runEventLoop of daemon/connection_mcbp.cc, conn_close of
--                daemon/connections.cc. A connection is the one of Connection with what the event loop
--                keeps besides (Driven); World is what the outside answers while one task runs.
--                set_state is setCurrentTask between two tasks that have a name; set_current_task has its
--                log line too, which throws for conn_destroyed.
--   Executor     daemon/executor.cc and .h, daemon/task.h: the thread's loop and the calls of the other
--                threads, as actions that are taken in any order.
--   TopKeys      daemon/topkeys.cc and .h, and the hash of daemon/buffer.h. A pointer into a shard's
--                storage is an index; none is undefined behaviour.
--                What the allocator answers is an argument (Allocation).
--   Histogram    daemon/timing_histogram.cc and .h.
--   Clock        daemon/mc_time.cc.
--   Sasl         cbsasl/strcmp.c, cbsasl/scram-sha/stringutils.cc and cbsasl/plain/plain.cc.
--   Engine       engines/default_engine: the hash table of assoc.c (Assoc), and the items of items.c with the
--                deletion of default_engine.c (Items).
--                An item is an address; a chain and a least-recently-used list are lists. crc32c, the
--                allocator and the thread library are arguments; slabs_free is a log. A key is a hash_key, with
--                the bucket's id. Each call is one step, default_item_delete with its three calls too.
--   Examples     concrete packets, connections and runs.
--
-- Machine integers are natural numbers with their wrap-around written out. `decode_specs`, the loop of
-- subdoc_create_context, runs on fuel; 17 rounds are enough, one more than the most paths of a valid
-- request. The loop of subdoc_multi_validator is bounded by the code itself. The loop of bin_read_chunk
-- that doubles the buffer's size has as many rounds as the body and header have bytes, and one more,
-- since a round adds at least 1. The loop of tryReadNetwork has six rounds: one that fills the buffer
-- as it is, one after each of at most four doublings, and one that finds it full. The
-- loops of encodeUsername and decodeUsername have one round for each character, and one more. The loop of
-- a connection's tasks has as many rounds as answers are given to it.
--
-- Parameters: Subdoc::Util::get_root_type and the JSON root constant, of the subjson library; the
-- executors of the commands and the handlers of responses (Handlers); transmit, the TAP and DCP
-- producers, the callbacks and what a task's execute returns.
--
-- Not modelled: logging and statistics, the executors' calls of an engine, libevent, the settings,
-- the exchange of SCRAM, the Greenstack protocol, the audit daemon, and the client programs.
pub mod Chain
pub mod Clock
pub mod Common
pub mod Connection
pub mod Engine
pub mod Examples
pub mod Executor
pub mod Histogram
pub mod Machine
pub mod Privileges
pub mod Protocol
pub mod Sasl
pub mod SessionCas
pub mod Subdoc
pub mod TopKeys
pub mod Validators
