-- ===== src/Connection/Stream.antt =====
-- Reading the rest of a packet, over any number of events.
use memcached.Common.{
  ℕ, zero, suc, ◌+◌, ◌-◌, ◌≤◌, ◌<◌, ◌≡◌, ◌≢◌, refl, ◌∙◌, ap, ◌⊎◌, inl, inr, true, false, Bool-cases,
  List, [], ◌∷◌, length, arith, ltb, ◌==◌, ◌!=◌, ◌&&◌, subst, if◌then◌else◌,
}
use memcached.Connection.{Connection, Environment}
use memcached.Connection.Receive.{
  header_size, store, take_leftover, take_received, received, recv_item, conn_nread_step,
}
use memcached.Connection.Assembly.{Receiving}

-- Bytes that are the stream's from `at` on.
abbrev pub Arrives : (ℕ → ℕ) → ℕ → List ℕ → Type 0
Arrives stream at [] = Unit {0}
Arrives stream at (b ∷ bytes) = (b ≡ stream at) × Arrives stream (at + 1) bytes

pub store_before :
    (at : ℕ) (bytes : List ℕ) (memory : ℕ → ℕ) (j : ℕ) → j < at → store at bytes memory j ≡ memory j
store_before at [] memory j lt = refl
store_before at (b ∷ bytes) memory j lt =
    store_before (at + 1) bytes _ j (omega arith) ∙ ground arith

pub store_inside :
    (stream : ℕ → ℕ) (at from : ℕ) (bytes : List ℕ) (memory : ℕ → ℕ) (i : ℕ)
    → Arrives stream from bytes
    → i < length bytes
    → store at bytes memory (at + i) ≡ stream (from + i)
store_inside stream at from [] memory i arrives lt = absurd (omega arith)
store_inside stream at from (b ∷ bytes) memory zero (e, rest) lt =
    ap (store (at + 1) bytes _) (omega arith)
    ∙ store_before (at + 1) bytes _ at (omega arith)
    ∙ (let same : (if at == at then b else memory at) ≡ b = ground arith in same)
    ∙ e
    ∙ ap stream (omega arith)
store_inside stream at from (b ∷ bytes) memory (suc i) (e, rest) lt =
    ap (store (at + 1) bytes _) (omega arith)
    ∙ store_inside stream (at + 1) (from + 1) bytes _ i rest (omega arith)
    ∙ ap stream (omega arith)

-- `n` unread bytes become part of the packet.
abbrev advance : ℕ → Connection → Connection
advance n c = record c {
  read = record c.read { curr = c.read.curr + n; bytes = c.read.bytes - n };
  ritem = c.ritem + n;
  rlbytes = c.rlbytes - n;
}

advance-Receiving :
    (stream : ℕ → ℕ) (bodylen got n : ℕ) (c : Connection)
    → Receiving stream bodylen got c
    → n ≤ c.read.bytes
    → n ≤ c.rlbytes
    → Receiving stream bodylen (got + n) (advance n c)
advance-Receiving stream bodylen got n c r le le' = record {
  position = omega (arith, r.position);
  start = omega (arith, r.start);
  header_read = omega (arith, r.header_read);
  missing = omega (arith, r.missing);
  room = omega (arith, r.room);
  unread = omega (arith, r.unread);
  packet = λ i lt. elim (split i) [
    | inl old ↦ ap c.read.memory (omega (arith, r.start)) ∙ r.packet i old
    | inr new ↦
        ap c.read.memory (omega (arith, r.start))
        ∙ r.rest (i - got) (omega arith)
        ∙ ap stream (omega arith)
  ];
  rest = λ i lt.
      ap c.read.memory (omega arith) ∙ r.rest (n + i) (omega arith) ∙ ap stream (omega arith);
}
  where
    split : (i : ℕ) → (i < got) ⊎ (got ≤ i)
    split i = ground arith

-- The item to read stands where the unread bytes do, so none has to be moved.
take_leftover_some :
    (c : Connection)
    → c.ritem ≡ c.read.curr
    → ltb 0 c.read.bytes ≡ true
    → take_leftover c ≡ advance (if ltb c.rlbytes c.read.bytes then c.rlbytes else c.read.bytes) c
unfolding take_leftover
take_leftover_some c e left =
    let same : (c.ritem != c.read.curr) ≡ false = ground arith in rw (left, same) refl

take_leftover_none : (c : Connection) → ltb 0 c.read.bytes ≡ false → take_leftover c ≡ c
unfolding take_leftover
take_leftover_none c nothing = rw nothing refl

-- After what was left over has been taken, the packet is complete or nothing is unread.
take_leftover-Receiving :
    (stream : ℕ → ℕ) (bodylen got : ℕ) (c : Connection)
    → Receiving stream bodylen got c
    → (n : ℕ) × Receiving stream bodylen (got + n) (take_leftover c)
      × (((take_leftover c).rlbytes ≡ 0) ⊎ ((take_leftover c).read.bytes ≡ 0))
take_leftover-Receiving stream bodylen got c r = elim (Bool-cases (ltb 0 c.read.bytes)) [
  | inl left ↦
      let n : ℕ = if ltb c.rlbytes c.read.bytes then c.rlbytes else c.read.bytes in
      rw (take_leftover_some c r.position left)
        (n, advance-Receiving stream bodylen got n c r (ground arith) (ground arith), ground arith)
  | inr nothing ↦ rw (take_leftover_none c nothing) (
    0,
    subst (λ g. Receiving stream bodylen g c) (let e : got ≡ got + 0 = omega arith in e) r,
    inr (ground arith),
  )
]

take_received-Receiving :
    (stream : ℕ → ℕ) (bodylen got : ℕ) (bytes : List ℕ) (c : Connection)
    → Receiving stream bodylen got c
    → c.read.bytes ≡ 0
    → Arrives stream got bytes
    → length bytes ≤ c.rlbytes
    → Receiving stream bodylen (got + length bytes) (take_received bytes c)
unfolding take_received
take_received-Receiving stream bodylen got bytes c r drained arrives le = record {
  position = ground (arith, r.position);
  start = ground (arith, r.position, r.start);
  header_read = omega (arith, r.header_read);
  missing = omega (arith, r.missing);
  room = ground (arith, r.position, r.room);
  unread = ground (arith, r.position, r.room);
  packet = λ i lt. elim (split i) [
    | inl old ↦
        ap (store c.ritem bytes c.read.memory) (ground (arith, r.position, r.start))
        ∙ store_before c.ritem bytes c.read.memory (c.read.curr - got + i)
            (omega (arith, r.position, r.start))
        ∙ r.packet i old
    | inr new ↦
        ap (store c.ritem bytes c.read.memory) (ground (arith, r.position, r.start))
        ∙ store_inside stream c.ritem got bytes c.read.memory (i - got) arrives (omega arith)
        ∙ ap stream (omega arith)
  ];
  rest = λ i lt. absurd (omega arith);
}
  where
    split : (i : ℕ) → (i < got) ⊎ (got ≤ i)
    split i = ground arith

-- A packet's reading: events of conn_nread on a bucket that stays, each of which finds the stream's
-- next bytes at the socket, at most as many as the packet lacks.
pub data Reads (stream : ℕ → ℕ) (bodylen : ℕ) (complete : Connection → Connection)
    (env : Environment) : Connection → Connection → Type 0 where
  read_none : (c : Connection) → Reads stream bodylen complete env c c
  read_some :
      (c d : Connection) (bytes : List ℕ)
      → c.rlbytes ≢ 0
      → Arrives stream (bodylen + header_size - (take_leftover c).rlbytes) bytes
      → length bytes ≤ (take_leftover c).rlbytes
      → Reads stream bodylen complete env
          (conn_nread_step complete env false (received bytes) c).1
          d
      → Reads stream bodylen complete env c d

conn_nread_step-Receiving :
    (stream : ℕ → ℕ) (bodylen got : ℕ) (complete : Connection → Connection) (env : Environment)
    (bytes : List ℕ) (c : Connection)
    → Receiving stream bodylen got c
    → c.rlbytes ≢ 0
    → Arrives stream (bodylen + header_size - (take_leftover c).rlbytes) bytes
    → length bytes ≤ (take_leftover c).rlbytes
    → (n : ℕ) × Receiving stream bodylen
        (got + n)
        (conn_nread_step complete env false (received bytes) c).1
unfolding conn_nread_step recv_item
conn_nread_step-Receiving stream bodylen got complete env bytes c r lacks arrives le =
    let (n, r', after) = take_leftover-Receiving stream bodylen got c r in
    let lacks' : (c.rlbytes == 0) ≡ false = ground arith in
    elim (Bool-cases (ltb 0 c.read.bytes && (take_leftover c).rlbytes == 0)) [
      | inl full ↦ rw (lacks', full) (n, r')
      | inr short ↦
          let next : Connection = take_leftover c in
          let at : bodylen + header_size - next.rlbytes ≡ got + n = omega (arith, r'.missing) in
          rw (lacks', short)
            (
              n + length bytes,
              subst (λ g. Receiving stream bodylen g (take_received bytes next))
                  (let e : got + n + length bytes ≡ got + (n + length bytes) = omega arith in e)
                  (take_received-Receiving stream bodylen (got + n) bytes next r'
                    (drained c short after) (subst (λ g. Arrives stream g bytes) at arrives) le),
            )
    ]
  where
    drained :
        (c : Connection)
        → (ltb 0 c.read.bytes && (take_leftover c).rlbytes == 0) ≡ false
        → ((take_leftover c).rlbytes ≡ 0) ⊎ ((take_leftover c).read.bytes ≡ 0)
        → (take_leftover c).read.bytes ≡ 0
    drained c short (inl full) =
        let nothing : ltb 0 c.read.bytes ≡ false = ground (arith, full) in
        rw (take_leftover_none c nothing) (ground arith)
    drained c short (inr empty) = empty

-- When nothing of a packet is missing any more, after any number of socket reads that bring the
-- stream's next bytes, its start is where getPacket looks for it, inside the buffer, and each byte
-- of header and body there is the stream's.
pub packet_assembled :
    (stream : ℕ → ℕ) (bodylen : ℕ) (complete : Connection → Connection) (env : Environment)
    (got : ℕ) (c d : Connection)
    → Receiving stream bodylen got c
    → Reads stream bodylen complete env c d
    → d.rlbytes ≡ 0
    → (i : ℕ) → i < bodylen + header_size
    → (bodylen + header_size ≤ d.read.curr)
      × (d.read.curr + d.read.bytes ≤ d.read.size)
      × (d.read.memory (d.read.curr - (bodylen + header_size) + i) ≡ stream i)
packet_assembled stream bodylen complete env got c _ r (read_none _) full i lt = (
  omega (arith, r.start, r.missing),
  r.unread,
  ap c.read.memory (omega (arith, r.missing)) ∙ r.packet i (omega (arith, r.missing)),
)
packet_assembled stream bodylen complete env got c d r (read_some _ _ bytes lacks arrives le rest)
      full i lt =
    let (n, r') =
      conn_nread_step-Receiving stream bodylen got complete env bytes c r lacks arrives le in
    packet_assembled stream bodylen complete env (got + n) _ d r' rest full i lt
