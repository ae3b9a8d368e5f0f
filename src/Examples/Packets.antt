-- ===== src/Examples/Packets.antt =====
-- Packets that the examples share.
use memcached.Common.{ℕ, zero, suc, List, [], ◌∷◌}
use memcached.Protocol.{Packet, magic_req, raw_bytes, htons, htonl}

-- A packet's bytes; 0 where the list ends.
abbrev pub bytes_of : List ℕ → ℕ → ℕ
bytes_of [] i = 0
bytes_of (b ∷ bytes) zero = b
bytes_of (b ∷ bytes) (suc i) = bytes_of bytes i

abbrev pub request : ℕ → ℕ → ℕ → ℕ → ℕ → List ℕ → Packet
request opcode keylen extlen bodylen cas body = record {
  header = record {
    magic = magic_req;
    opcode = opcode;
    keylen = htons keylen;
    extlen = extlen;
    datatype = raw_bytes;
    vbucket = 0;
    bodylen = htonl bodylen;
    opaque = 0;
    cas = cas;
  };
  body = bytes_of body;
}

-- GET of the key "k".
abbrev pub get_k : Packet
get_k = request 0x00 1 0 1 0 (0x6b ∷ [])

-- SUBDOC_GET of the path "p" in the document "k".
abbrev pub subdoc_get_p : Packet
subdoc_get_p = request 0xc5 1 3 5 0 (0 ∷ 1 ∷ 0 ∷ 0x6b ∷ 0x70 ∷ [])

-- SUBDOC_DICT_UPSERT whose path of 9 bytes has only one in the body.
abbrev pub long_path : Packet
long_path = request 0xc8 1 3 5 0 (0 ∷ 9 ∷ 0 ∷ 0x6b ∷ 0x70 ∷ [])

-- SUBDOC_MULTI_LOOKUP of the path "p" in the document "k".
abbrev pub lookup_p : Packet
lookup_p = request 0xd0 1 0 6 0 (0x6b ∷ 0xc5 ∷ 0 ∷ 0 ∷ 1 ∷ 0x70 ∷ [])

-- SUBDOC_MULTI_LOOKUP with nothing but the key.
abbrev pub lookup_nothing : Packet
lookup_nothing = request 0xd0 1 0 1 0 (0x6b ∷ [])

-- SUBDOC_MULTI_LOOKUP with a body of 16 MiB.
abbrev pub lookup_large : Packet
lookup_large = request 0xd0 1 0 0x1000000 0 (0x6b ∷ [])
