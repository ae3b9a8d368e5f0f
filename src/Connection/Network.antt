-- ===== src/Connection/Network.antt =====
-- Filling the read buffer from the socket: McbpConnection::tryReadNetwork of
-- daemon/connection_mcbp.cc.
pub mod Filling
use memcached.Common.{
  ℕ, zero, suc, ◌+◌, ◌-◌, ◌*◌, ◌%◌, ◌^◌, ◌≤◌, ◌<◌, ◌≡◌, refl, sym, subst, ◌∙◌, ap, ◌⊎◌, inl, inr,
  Bool, true, false, ◌&&◌, not, Bool-cases, ltb, leb, ◌==◌, ◌!=◌, if◌then◌else◌, Option, none, some,
  List, [], ◌∷◌, length, arith,
}
use memcached.Connection.{NetBuf}
use memcached.Connection.Receive.{
  memmove, store, Received, received, end_of_stream, would_block, network_error,
}
use memcached.Connection.Assembly.{Holds}
use memcached.Connection.Stream.{Arrives, store_before, store_inside}

-- With memory_error the connection's task becomes conn_closing.
pub data TryReadResult : Type 0 where
  no_data_received data_received socket_error memory_error : TryReadResult

-- What is read is moved to the buffer's start.
unfoldable pub pack : NetBuf → NetBuf
pack read =
    if read.curr != 0
    then record read {
      memory = if read.bytes != 0 then memmove 0 read.curr read.bytes read.memory else read.memory;
      curr = 0;
    }
    else read

abbrev pub grown : NetBuf → NetBuf
grown read = record read { size = read.size * 2 % 2 ^ 32; curr = 0 }

abbrev pub appended : List ℕ → NetBuf → NetBuf
appended bytes read = record read {
  memory = store read.bytes bytes read.memory;
  bytes = read.bytes + length bytes;
}

-- What a round comes to: the function returns, or the buffer was filled and the loop goes on.
pub data Round : Type 0 where
  stop : TryReadResult → NetBuf → Round
  again : NetBuf → Round

-- What follows `recv` in the loop's body, by its answer.
unfoldable pub receive_into : Bool → ℕ → TryReadResult → NetBuf → Received → Round
receive_into is_pipe avail gotdata read (received []) =
    stop (if is_pipe then no_data_received else socket_error) read
receive_into is_pipe avail gotdata read (received bytes) =
    if length bytes == avail
    then again (appended bytes read)
    else stop data_received (appended bytes read)
receive_into is_pipe avail gotdata read end_of_stream =
    stop (if is_pipe then no_data_received else socket_error) read
receive_into is_pipe avail gotdata read would_block = stop gotdata read
receive_into is_pipe avail gotdata read network_error = stop socket_error read

-- `recv at n` is the socket's answer to a request for n bytes after it has delivered `at` bytes, and
-- `can_realloc` the allocator's.
module _ (recv : ℕ → ℕ → Received) (can_realloc is_pipe : Bool) where
  -- The loop's body once there is room; `next` is the loop, with the allocations, what the socket has
  -- delivered and the buffer that it goes on with.
  unfoldable pub read_round :
      (ℕ → ℕ → NetBuf → Option (TryReadResult × NetBuf))
      → ℕ
      → ℕ
      → TryReadResult
      → NetBuf
      → Option (TryReadResult × NetBuf)
  read_round next num_allocs at gotdata read =
      let avail = read.size - read.bytes in
      elim (receive_into is_pipe avail gotdata read (recv at avail)) [
        | stop result done ↦ some (result, done)
        | again filled ↦ next num_allocs (at + avail) filled
      ]

  -- `while (1)`, with fuel; `none` when it runs out.
  unfoldable pub read_loop : ℕ → ℕ → ℕ → TryReadResult → NetBuf → Option (TryReadResult × NetBuf)
  read_loop zero num_allocs at gotdata read = none
  read_loop (suc fuel) num_allocs at gotdata read =
      let full = leb read.size read.bytes in
      if full && num_allocs == 4
      then some (gotdata, read)
      else if full && not can_realloc
      then some (memory_error, record read { bytes = 0 })
      else read_round (λ allocs got filled. read_loop fuel allocs got data_received filled)
          (if full then num_allocs + 1 else num_allocs) at gotdata
          (if full then grown read else read)

  unfoldable pub try_read_network : ℕ → ℕ → NetBuf → Option (TryReadResult × NetBuf)
  try_read_network fuel at read = read_loop fuel 0 at no_data_received (pack read)
