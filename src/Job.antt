-- ===== src/Job.antt =====
-- The jobs of qedl-job and the context they run in.
pub mod Context
pub mod Reader
pub mod Write
pub mod Erase
pub mod Dump
pub mod Disk
pub mod RoundTrip
pub mod Small
mod Tests
