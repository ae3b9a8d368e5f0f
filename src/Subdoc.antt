-- ===== src/Subdoc.antt =====
-- The sub-document commands: daemon/subdocument_validators.cc, daemon/subdocument_traits.h and the
-- decoding of a request in daemon/subdocument.cc, with the encoder of utilities/subdoc_encoder.cc.
pub mod Traits
pub mod Single
pub mod Multi
pub mod Tiling
pub mod Context
pub mod Bounds
pub mod Decode
pub mod Minimum
pub mod Encoder
