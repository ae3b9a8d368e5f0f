-- ===== src/Subdoc/Minimum.antt =====
-- The minimum length of a request on several paths. The check compares the length as it stands in
-- the packet, whose bytes are swapped on a little-endian host.
use memcached.Common.{ℕ, ◌+◌}
use memcached.Protocol.{Packet, ntohs}
use memcached.Subdoc.Traits.{SubdocMultiCmdTraits}

abbrev pub minimum_body_len : SubdocMultiCmdTraits → Packet → ℕ
minimum_body_len traits req = ntohs req.keylen + req.extlen + traits.min_value_len
