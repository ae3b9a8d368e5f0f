-- ===== src/Protocol/Wire.antt =====
-- The byte order of the header's fields.
use memcached.Common.{ℕ, ◌+◌, ◌*◌, ◌^◌, ◌<◌, ◌≡◌, ◌↔◌, sym, ap, ◌∙◌, arith}
use memcached.Protocol.{Header, HasWidths, Packet, ntohs, ntohl}

-- The request header as it stands in memory: loads of a little-endian host.
unfoldable pub load16 : (ℕ → ℕ) → ℕ → ℕ
load16 bytes at = bytes at + bytes (at + 1) * 2 ^ 8

unfoldable pub load32 : (ℕ → ℕ) → ℕ → ℕ
load32 bytes at =
    bytes at + bytes (at + 1) * 2 ^ 8 + bytes (at + 2) * 2 ^ 16 + bytes (at + 3) * 2 ^ 24

unfoldable pub load64 : (ℕ → ℕ) → ℕ → ℕ
unfolding load32
load64 bytes at = load32 bytes at + load32 bytes (at + 4) * 2 ^ 32

unfoldable pub read_header : (ℕ → ℕ) → Header
unfolding load16 load64
read_header bytes = record {
  magic = bytes 0;
  opcode = bytes 1;
  keylen = load16 bytes 2;
  extlen = bytes 4;
  datatype = bytes 5;
  vbucket = load16 bytes 6;
  bodylen = load32 bytes 8;
  opaque = load32 bytes 12;
  cas = load64 bytes 16;
}

-- The packet at a pointer into the receive buffer.
unfoldable pub read_packet : (ℕ → ℕ) → Packet
unfolding read_header
read_packet bytes = record { header = read_header bytes; body = λ i. bytes (24 + i) }

abbrev pub AreBytes : (ℕ → ℕ) → Type 0
AreBytes bytes = (i : ℕ) → bytes i < 256

pub ntohs-load16 :
    (bytes : ℕ → ℕ) (at : ℕ)
    → AreBytes bytes
    → ntohs (load16 bytes at) ≡ bytes at * 2 ^ 8 + bytes (at + 1)
unfolding ntohs load16
ntohs-load16 bytes at b = omega (arith, b at, b (at + 1))

pub ntohl-load32 :
    (bytes : ℕ → ℕ) (at : ℕ)
    → AreBytes bytes
    → ntohl (load32 bytes at)
      ≡ bytes at * 2 ^ 24 + bytes (at + 1) * 2 ^ 16 + bytes (at + 2) * 2 ^ 8 + bytes (at + 3)
unfolding ntohl load32
ntohl-load32 bytes at b = omega (arith, b at, b (at + 1), b (at + 2), b (at + 3))

pub read_header-HasWidths : (bytes : ℕ → ℕ) → AreBytes bytes → HasWidths (read_header bytes)
unfolding read_header load16 load32
read_header-HasWidths bytes b = record {
  keylen_width = omega (arith, b 2, b 3);
  extlen_width = b 4;
  bodylen_width = omega (arith, b 8, b 9, b 10, b 11);
}

pub ntohs-lt : (x : ℕ) → ntohs x < 2 ^ 16
unfolding ntohs
ntohs-lt x = omega arith

pub ntohl-lt : (x : ℕ) → ntohl x < 2 ^ 32
unfolding ntohl
ntohl-lt x = omega arith

pub ntohs-ntohs : (x : ℕ) → x < 2 ^ 16 → ntohs (ntohs x) ≡ x
unfolding ntohs
ntohs-ntohs x h = omega arith

pub ntohl-ntohl : (x : ℕ) → x < 2 ^ 32 → ntohl (ntohl x) ≡ x
unfolding ntohl
ntohl-ntohl x h = omega arith

pub ntohs_eq_iff : (x n : ℕ) → x < 2 ^ 16 → n < 2 ^ 16 → (x ≡ ntohs n) ↔ (ntohs x ≡ n)
ntohs_eq_iff x n hx hn =
    (λ e. ap ntohs e ∙ ntohs-ntohs n hn, λ e. sym (ntohs-ntohs x hx) ∙ ap ntohs e)

pub ntohl_eq_iff : (x n : ℕ) → x < 2 ^ 32 → n < 2 ^ 32 → (x ≡ ntohl n) ↔ (ntohl x ≡ n)
ntohl_eq_iff x n hx hn =
    (λ e. ap ntohl e ∙ ntohl-ntohl n hn, λ e. sym (ntohl-ntohl x hx) ∙ ap ntohl e)

pub keylen_zero_iff : (x : ℕ) → x < 2 ^ 16 → (x ≡ 0) ↔ (ntohs x ≡ 0)
unfolding ntohs
keylen_zero_iff x h = (λ e. omega arith, λ e. omega arith)

pub bodylen_zero_iff : (x : ℕ) → x < 2 ^ 32 → (x ≡ 0) ↔ (ntohl x ≡ 0)
unfolding ntohl
bodylen_zero_iff x h = (λ e. omega arith, λ e. omega arith)
