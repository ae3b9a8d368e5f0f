-- ===== src/Examples.antt =====
-- Concrete packets, connections and runs, to which the theorems apply.
pub mod Packets
pub mod SubdocRequests
pub mod Validation
pub mod Access
pub mod Reading
pub mod Socket
pub mod Background
pub mod Encoding
pub mod Storing
pub mod Login
pub mod Closing
