-- ===== src/Subdoc/Bounds.antt =====
-- Where the buffers of a validated request lie.
use memcached.Subdoc.Context.{Buffer, request_value, create_single}
use memcached.Subdoc.Traits.{Command}
use memcached.Common.{ℕ, ◌+◌, ◌≤◌, ◌<◌, ◌≡◌, ◌≢◌, ◌↔◌, ◌⊎◌, true, false, arith, All, ◌^◌, ◌-◌}
use memcached.Protocol.{HeaderFits, success, Packet, magic_req, raw_bytes, ntohs, ntohl}
use memcached.Protocol.Wire.{ntohs-lt, ntohl-lt, load16}
use memcached.Subdoc.Traits.{SubdocCmdTraits}
use memcached.Subdoc.Single.{pathlen_of, valuelen_of, invalid_flags, subdoc_validator}

-- The sections that the header and the extras declare, in host order.
abbrev pub sections : Packet → ℕ
sections req = ntohs req.keylen + req.extlen + pathlen_of req

-- valuelen is zero exactly when key, extras and path fill the body.
pub valuelen_zero_iff :
    (req : Packet) → HeaderFits req → (valuelen_of req ≡ 0) ↔ (sections req ≡ ntohl req.bodylen)
unfolding valuelen_of
valuelen_zero_iff req fits = (
  λ e. omega (arith, ntohl-lt req.bodylen, ntohs-lt (load16 req.body 0)),
  λ e. omega (arith, ntohl-lt req.bodylen, ntohs-lt (load16 req.body 0)),
)

-- A valid request on one path, field by field and apart from the order of the code's tests.
pub record ValidSingle (traits : SubdocCmdTraits) (req : Packet) : Type 0 where
  pub magic : req.magic ≡ magic_req
  pub key : 0 < ntohs req.keylen
  pub raw : req.datatype ≡ raw_bytes
  pub path_short : pathlen_of req ≤ 1024
  pub path_present : traits.allow_empty_path ≡ false → 0 < pathlen_of req
  pub value : traits.request_has_value ≡ true → sections req ≢ ntohl req.bodylen
  pub no_value : traits.request_has_value ≡ false → sections req ≡ ntohl req.bodylen
  pub flags : invalid_flags (req.body 2) traits.valid_flags ≡ false
  pub extras : (req.extlen ≡ 3) ⊎ ((traits.is_mutator ≡ true) × (req.extlen ≡ 7))

-- Under the header check subdoc_validator accepts a packet exactly when each field is as the
-- command's traits ask: magic, key, data type, path length, flags, extras, and a body that key,
-- extras and path fill exactly if and only if the command has no value.
pub subdoc_validator_iff :
    (traits : SubdocCmdTraits) (req : Packet)
    → HeaderFits req
    → (subdoc_validator traits req ≡ success) ↔ ValidSingle traits req
unfolding subdoc_validator
subdoc_validator_iff traits req fits = (sound, complete)
  where
    sound : subdoc_validator traits req ≡ success → ValidSingle traits req
    sound h = record {
      magic = ground arith;
      key = ground arith;
      raw = ground arith;
      path_short = ground arith;
      path_present = ground arith;
      value = λ has e. ground (arith, (valuelen_zero_iff req fits).1 e);
      no_value = λ has. (valuelen_zero_iff req fits).0 (ground arith);
      flags = ground arith;
      extras = ground arith;
    }

    complete : ValidSingle traits req → subdoc_validator traits req ≡ success
    complete v = ground (arith, valuelen_zero_iff req fits, v.value, v.no_value, v.path_present)

-- A request for a command with a value whose path is longer than what the body has left is accepted
-- where its magic, key, data type, path length, flags and extras (of 3 bytes, or 7 for a mutator)
-- are valid, and the value that the executor sets up for it has at least 2^64 - 1024 bytes.
pub subdoc_path_overrun :
    (get_root_type : Command → (ℕ → ℕ) → Buffer → ℕ) (root : ℕ) (traits : SubdocCmdTraits)
    (req : Packet)
    → HeaderFits req
    → ntohl req.bodylen < sections req
    → traits.request_has_value ≡ true
    → req.magic ≡ magic_req
    → 0 < ntohs req.keylen
    → req.datatype ≡ raw_bytes
    → pathlen_of req ≤ 1024
    → invalid_flags (req.body 2) traits.valid_flags ≡ false
    → (req.extlen ≡ 3) ⊎ ((traits.is_mutator ≡ true) × (req.extlen ≡ 7))
    → (subdoc_validator traits req ≡ success)
      × All
          (λ op. 2 ^ 64 - 1024 ≤ op.value.len)
          (create_single get_root_type root traits req (request_value req)).ops
unfolding create_single request_value
subdoc_path_overrun get_root_type root traits req fits over has magic key raw short flags ext = (
  (subdoc_validator_iff traits req fits).1 (record {
    magic = magic;
    key = key;
    raw = raw;
    path_short = short;
    path_present = λ _. omega arith;
    value = λ _. omega arith;
    no_value = λ no_value. cc;
    flags = flags;
    extras = ext;
  }),
  (rw has (omega (arith, ntohl-lt req.bodylen)), tt),
)
