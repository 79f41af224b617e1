-- ===== src/Core.antt =====
-- qedl-core: what the other crates share.
pub mod State
