-- ===== src/Examples/Socket.antt =====
-- Filling a buffer from a socket that delivers one byte at a time.
use memcached.Common.{ℕ, leb, if◌then◌else◌, [], ◌∷◌}
use memcached.Connection.{NetBuf}
use memcached.Connection.Receive.{Received, received, would_block}

abbrev sevens : ℕ → ℕ
sevens i = 7

abbrev slow_socket : ℕ → ℕ → Received
slow_socket at n = if leb 1 n then received (7 ∷ []) else would_block

abbrev empty_buffer : NetBuf
empty_buffer = record { memory = λ i. 0; size = 32; curr = 5; bytes = 0 }
