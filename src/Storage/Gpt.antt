-- ===== src/Storage/Gpt.antt =====
-- qedl-storage/src/gpt.rs: the header, the entries and the table.
pub mod Header
pub mod Entry
pub mod Table
pub mod Parse
pub mod Verify
