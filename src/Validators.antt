-- ===== src/Validators.antt =====
-- The packet validators of daemon/mcbp_validators.cc, by the kind of their commands.
pub mod Dcp
pub mod Admin
pub mod Kv
pub mod Bucket
pub mod Table
pub mod Names
pub mod Addresses
pub mod Format
pub mod Conforms
pub mod Dispatch
