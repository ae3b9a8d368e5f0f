-- ===== src/Subdoc/Encoder.antt =====
-- The encoder of requests on several paths that the tools use: utilities/subdoc_encoder.h and
-- utilities/subdoc_encoder.cc.
pub mod Accepted
pub mod RoundTrip
use memcached.Common.{
  ℕ, zero, suc, ◌+◌, ◌/◌, ◌%◌, ◌^◌, Bool, true, false, ◌||◌, ◌!=◌, if◌then◌else◌, List, [], ◌∷◌,
  ◌++◌, length,
}
use memcached.Protocol.{htons, htonl, magic_req, raw_bytes}

-- A LookupSpec of either command; a lookup's has no value.
pub record LookupSpec : Type 0 where
  pub opcode : ℕ
  pub flags : ℕ
  pub path : List ℕ
  pub value : List ℕ

pub record SubdocMultiCmd : Type 0 where
  pub command : ℕ
  pub key : List ℕ
  pub cas : ℕ
  pub expiry : ℕ
  pub encode_zero_expiry_on_wire : Bool
  pub specs : List LookupSpec

-- A number of 16 or 32 or 64 bits as a little-endian host stores it.
unfoldable pub store16 : ℕ → List ℕ
store16 x = x % 256 ∷ x / 2 ^ 8 % 256 ∷ []

unfoldable pub store32 : ℕ → List ℕ
store32 x = x % 256 ∷ x / 2 ^ 8 % 256 ∷ x / 2 ^ 16 % 256 ∷ x / 2 ^ 24 % 256 ∷ []

unfoldable pub store64 : ℕ → List ℕ
unfolding store32
store64 x = store32 (x % 2 ^ 32) ++ store32 (x / 2 ^ 32)

unfoldable pub include_expiry : SubdocMultiCmd → Bool
include_expiry cmd = cmd.expiry != 0 || cmd.encode_zero_expiry_on_wire

-- One round of the loop of encode, for a mutation and for a lookup.
unfoldable pub encode_spec : Bool → LookupSpec → List ℕ
unfolding store16 store32
encode_spec true s =
    s.opcode ∷ s.flags ∷ store16 (htons (length s.path % 2 ^ 16))
    ++ (store32 (htonl (length s.value % 2 ^ 32)) ++ (s.path ++ s.value))
encode_spec false s = s.opcode ∷ s.flags ∷ store16 (htons (length s.path % 2 ^ 16)) ++ s.path

unfoldable pub encode_specs : Bool → List LookupSpec → List ℕ
unfolding encode_spec
encode_specs mutator [] = []
encode_specs mutator (s ∷ specs) = encode_spec mutator s ++ encode_specs mutator specs

-- SubdocMultiCmd::encode_common, behind the place that it keeps for the header.
unfoldable pub encode_common : SubdocMultiCmd → List ℕ
unfolding include_expiry store32
encode_common cmd = (if include_expiry cmd then store32 (htonl cmd.expiry) else []) ++ cmd.key

-- SubdocMultiCmd::populate_header; the vbucket is left at 0.
unfoldable pub populate_header : SubdocMultiCmd → ℕ → List ℕ
unfolding include_expiry store16 store32 store64
populate_header cmd bodylen =
    magic_req ∷ cmd.command ∷ store16 (htons (length cmd.key % 2 ^ 16))
    ++ ((if include_expiry cmd then 4 else 0)
          ∷ raw_bytes
          ∷ 0
          ∷ 0
          ∷ store32 (htonl (bodylen % 2 ^ 32))
        ++ (store32 0xdeadbeef ++ store64 cmd.cas))

-- SubdocMultiMutationCmd::encode where `mutator` is true, and SubdocMultiLookupCmd::encode.
unfoldable pub encode : Bool → SubdocMultiCmd → List ℕ
unfolding encode_common encode_specs populate_header
encode mutator cmd =
    let body = encode_common cmd ++ encode_specs mutator cmd.specs in
    populate_header cmd (length body) ++ body
