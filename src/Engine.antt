-- ===== src/Engine.antt =====
-- The default engine: engines/default_engine.
pub mod Assoc
pub mod Items
