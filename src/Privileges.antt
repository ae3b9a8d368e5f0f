-- ===== src/Privileges.antt =====
-- The privileges that a command requires: daemon/mcbp_privileges.cc.
pub mod Checks
pub mod Table
pub mod Access
