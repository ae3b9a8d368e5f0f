-- ===== src/Connection/Assembly.antt =====
-- The packet that the buffer holds in the end is the one that came in: the bytes of the stream, from
-- where its header was read.
use memcached.Common.{
  ℕ, ◌+◌, ◌-◌, ◌*◌, ◌%◌, ◌^◌, ◌≤◌, ◌<◌, ◌≡◌, refl, ◌∙◌, ap, ◌⊎◌, inl, inr, some, Bool-cases, arith,
  ltb, ◌==◌, ◌!=◌,
}
use memcached.Protocol.{Header}
use memcached.Connection.{Connection, NetBuf, Environment, conn_nread, conn_closing, set_state}
use memcached.Connection.Receive.{
  header_size, repack, start_nread, with_room, bin_read_chunk, consume_header,
}
use memcached.Connection.Room.{grow_lem, set_state-nread, set_state-closing}

-- The unread bytes of a buffer are the stream's from `at` on.
abbrev pub Holds : (ℕ → ℕ) → ℕ → NetBuf → Type 0
Holds stream at read = (i : ℕ) → i < read.bytes → read.memory (read.curr + i) ≡ stream (at + i)

-- A packet is being read: `got` bytes of it have come, the header among them, and stand at `from`.
pub record Receiving (stream : ℕ → ℕ) (bodylen got : ℕ) (c : Connection) : Type 0 where
  pub position : c.ritem ≡ c.read.curr
  pub start : got ≤ c.read.curr
  pub header_read : header_size ≤ got
  pub missing : got + c.rlbytes ≡ bodylen + header_size
  pub room : c.read.curr + c.rlbytes ≤ c.read.size
  pub unread : c.read.curr + c.read.bytes ≤ c.read.size
  pub packet : (i : ℕ) → i < got → c.read.memory (c.read.curr - got + i) ≡ stream i
  pub rest : Holds stream got c.read

-- A buffer that holds the stream from a packet's start on, and the packet's header at least.
pub record Ready (stream : ℕ → ℕ) (read : NetBuf) : Type 0 where
  pub held : (i : ℕ) → i < read.bytes → read.memory (read.curr + i) ≡ stream i
  pub whole_header : header_size ≤ read.bytes
  pub fits : read.curr + read.bytes ≤ read.size

repack_lem : (read : NetBuf) → ((repack read).curr ≡ 0) × ((repack read).size ≡ read.size)
unfolding repack
repack_lem read = (ground arith, ground arith)

repack-Ready : (stream : ℕ → ℕ) (read : NetBuf) → Ready stream read → Ready stream (repack read)
unfolding repack
repack-Ready stream read ready = elim (Bool-cases (read.curr == 0)) [
  | inl start ↦ rw start ready
  | inr moved ↦ rw moved (record {
    held = λ i lt. ground (arith, ready.held i lt);
    whole_header = ready.whole_header;
    fits = omega (arith, ready.fits);
  })
]

grown-Ready :
    (stream : ℕ → ℕ) (read : NetBuf) (size : ℕ)
    → read.size ≤ size
    → Ready stream read
    → Ready stream (record read { size = size })
grown-Ready stream read size more ready = record {
  held = ready.held;
  whole_header = ready.whole_header;
  fits = omega (arith, ready.fits);
}

start_nread-Receiving :
    (stream : ℕ → ℕ) (c : Connection)
    → Ready stream c.read
    → c.read.curr + header_size + c.rlbytes ≤ c.read.size
    → Receiving stream c.rlbytes header_size (consume_header (start_nread c))
unfolding start_nread set_state
start_nread-Receiving stream c ready room = record {
  position = refl;
  start = omega arith;
  header_read = omega arith;
  missing = omega arith;
  room = room;
  unread = omega (arith, ready.fits, ready.whole_header);
  packet =
      λ i lt. ap c.read.memory (omega arith) ∙ ready.held i (omega (arith, ready.whole_header));
  rest = λ i lt.
      ap c.read.memory (omega arith)
      ∙ ready.held (header_size + i) (omega (arith, ready.whole_header));
}

-- What a connection is after bin_read_chunk.
abbrev pub Started : (ℕ → ℕ) → ℕ → Header → Connection → Type 0
Started stream chunk header done =
    (done.header ≡ header)
    × ((done.state ≡ conn_closing)
        ⊎ ((done.state ≡ conn_nread) × Receiving stream chunk header_size (consume_header done)))

start_nread-Started :
    (stream : ℕ → ℕ) (c : Connection)
    → Ready stream c.read
    → c.read.curr + header_size + c.rlbytes ≤ c.read.size
    → Started stream c.rlbytes c.header (start_nread c)
unfolding start_nread set_state
start_nread-Started stream c ready room = (
  refl,
  inr (
    set_state-nread (record c { ritem = c.read.curr + header_size }),
    start_nread-Receiving stream c ready room,
  ),
)

repacked-Started :
    (stream : ℕ → ℕ) (c : Connection) (read : NetBuf)
    → Ready stream read
    → header_size + c.rlbytes ≤ read.size
    → Started stream c.rlbytes c.header (start_nread (record c { read = repack read }))
repacked-Started stream c read ready room =
    start_nread-Started stream (record c { read = repack read }) (repack-Ready stream read ready)
      (omega (arith, (repack_lem read).0, (repack_lem read).1))

closing_header : (c : Connection) → (set_state conn_closing c).header ≡ c.header
unfolding set_state
closing_header c = refl

with_room-Started :
    (stream : ℕ → ℕ) (env : Environment) (c : Connection) (nsize : ℕ)
    → Ready stream c.read
    → header_size + c.rlbytes ≤ nsize
    → c.read.size ≤ nsize
    → nsize < 2 ^ 32
    → Started stream c.rlbytes c.header (with_room env c nsize)
unfolding with_room
with_room-Started stream env c nsize ready enough more width =
    elim (Bool-cases (nsize != c.read.size)) [
      | inl other ↦ elim (Bool-cases env.can_realloc) [
        | inl moved ↦
            rw (other, moved)
              (repacked-Started stream c (record c.read { size = nsize % 2 ^ 32 })
                (grown-Ready stream c.read (nsize % 2 ^ 32) (omega arith) ready) (omega arith))
        | inr unmoved ↦ rw (other, unmoved) (closing_header c, inl (set_state-closing c))
      ]
      | inr same ↦ rw same (repacked-Started stream c c.read ready (ground arith))
    ]

-- Let a buffer of less than 2^32 bytes hold a packet's header at least, and the body be no longer
-- than 2^31 bytes with the header. Then bin_read_chunk returns, with the buffer's loop of doublings
-- ended, and either the connection closes, or it reads on: the buffer has room for the whole body,
-- and the packet's bytes so far stand where they are expected.
pub bin_read_chunk-Started :
    (stream : ℕ → ℕ) (env : Environment) (chunk : ℕ) (c : Connection)
    → Ready stream c.read
    → c.read.size < 2 ^ 32
    → chunk + header_size ≤ 2 ^ 31
    → (done : Connection) × (bin_read_chunk env chunk c ≡ some done)
      × Started stream chunk c.header done
unfolding bin_read_chunk
bin_read_chunk-Started stream env chunk c ready width small =
    elim (Bool-cases (ltb c.read.size (chunk + (c.read.curr + header_size)))) [
      | inl short ↦
          let (n, ran, big, grown, bound) =
            grow_lem (chunk + header_size) (chunk + header_size) c.read.size
              (omega (arith, ready.fits, ready.whole_header)) (omega arith) in
          (
            with_room env (record c { rlbytes = chunk }) n,
            rw (short, ran) refl,
            with_room-Started stream env (record c { rlbytes = chunk }) n ready (omega arith) grown
                (fits n bound),
          )
      | inr long ↦ (
        start_nread (record c { rlbytes = chunk }),
        rw long refl,
        start_nread-Started stream (record c { rlbytes = chunk }) ready (ground arith),
      )
    ]
  where
    fits : (n : ℕ) → (n ≡ c.read.size) ⊎ (n < 2 * (chunk + header_size)) → n < 2 ^ 32
    fits n (inl same) = omega arith
    fits n (inr less) = omega arith
