-- ===== src/Connection/Network/Filling.antt =====
-- tryReadNetwork keeps the stream's bytes in order and returns.
use memcached.Common.{ℕ, zero, suc, ◌+◌, ◌*◌, ◌^◌, ◌≤◌, ◌<◌, ◌≡◌, ◌⊎◌, Bool, Option, some, length}
use memcached.Connection.{NetBuf}
use memcached.Connection.Receive.{Received, received}
use memcached.Connection.Stream.{Arrives}
use memcached.Connection.Network.{TryReadResult, memory_error, Round, stop, again}

-- The unread bytes stand at the buffer's start and are the stream's from `from` on.
pub record Filled (stream : ℕ → ℕ) (from : ℕ) (read : NetBuf) : Type 0 where
  pub packed : read.curr ≡ 0
  pub within : read.bytes ≤ read.size
  pub held : (i : ℕ) → i < read.bytes → read.memory i ≡ stream (from + i)

-- recv delivers the stream's bytes, and no more than it was asked for.
abbrev pub Answers : (ℕ → ℕ) → ℕ → ℕ → Received → Type 0
Answers stream at n (received bytes) = Arrives stream at bytes × (length bytes ≤ n)
Answers stream at n _ = Unit {0}

-- What a round must keep: the buffer, and where the loop goes on that it has been filled.
abbrev RoundKeeps : (ℕ → ℕ) → ℕ → NetBuf → Round → Type 0
RoundKeeps stream from read (stop result done) = Filled stream from done
RoundKeeps stream from read (again filled) =
    Filled stream from filled × (filled.size ≡ read.size) × (filled.bytes ≡ read.size)

-- The doublings that are left keep the size below 2^32.
abbrev Roomy : ℕ → ℕ → Type 0
Roomy zero size = size < 2 ^ 31
Roomy (suc left) size = (size < 2 ^ 31) × Roomy left (size * 2)

-- The function has returned, and the buffer is in order unless memory was refused.
abbrev pub Returned : (ℕ → ℕ) → ℕ → Option (TryReadResult × NetBuf) → Type 0
Returned stream from outcome =
    (result : TryReadResult) × (read : NetBuf) × (outcome ≡ some (result, read))
    × ((result ≡ memory_error) ⊎ Filled stream from read)

module _ (recv : ℕ → ℕ → Received) (can_realloc is_pipe : Bool) (stream : ℕ → ℕ)
    (answers : (at n : ℕ) → Answers stream at n (recv at n)) where
  Roomy-small : (left size : ℕ) → Roomy left size → size < 2 ^ 31
  Roomy-small zero size h = h
  Roomy-small (suc left) size h = h.0
