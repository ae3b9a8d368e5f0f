-- ===== src/Validators/Conforms/Lengths.antt =====
-- What the validators' proofs use of a header: how its fields in network order compare.
use memcached.Common.{◌^◌, ◌<◌, ◌≡◌, ◌↔◌, arith}
use memcached.Protocol.{HeaderFits, Packet, HasWidths, ntohs, ntohl, htonl}
use memcached.Protocol.Wire.{keylen_zero_iff, bodylen_zero_iff, ntohl_eq_iff, ntohl-lt, ntohs-lt}
use memcached.Validators.Format.{Format, Rule}

pub record Facts (req : Packet) : Type 0 where
  pub fits : HeaderFits req
  pub keylen_zero : (req.keylen ≡ 0) ↔ (ntohs req.keylen ≡ 0)
  pub bodylen_zero : (req.bodylen ≡ 0) ↔ (ntohl req.bodylen ≡ 0)
  pub bodylen_four : (req.bodylen ≡ htonl 4) ↔ (ntohl req.bodylen ≡ 4)
  pub bodylen_twenty : (req.bodylen ≡ htonl 20) ↔ (ntohl req.bodylen ≡ 20)
  pub keylen_bound : ntohs req.keylen < 2 ^ 16
  pub bodylen_bound : ntohl req.bodylen < 2 ^ 32

pub known_lengths : (req : Packet) → HasWidths req.header → HeaderFits req → Facts req
known_lengths req w fits = record {
  fits = fits;
  keylen_zero = keylen_zero_iff req.keylen w.keylen_width;
  bodylen_zero = bodylen_zero_iff req.bodylen w.bodylen_width;
  bodylen_four = ntohl_eq_iff req.bodylen 4 w.bodylen_width (omega arith);
  bodylen_twenty = ntohl_eq_iff req.bodylen 20 w.bodylen_width (omega arith);
  keylen_bound = ntohs-lt req.keylen;
  bodylen_bound = ntohl-lt req.bodylen;
}

abbrev pub format : Rule → Rule → Rule → Rule → Rule → Format
format extras key value cas datatype = record {
  extras = extras;
  key = key;
  value = value;
  cas = cas;
  datatype = datatype;
}
