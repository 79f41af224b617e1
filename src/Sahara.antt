-- ===== src/Sahara.antt =====
-- qedl-sahara: the protocol that loads the programmer onto a device.
pub mod Protocol
pub mod Session
pub mod Exec
pub mod Handshake
pub mod Codes
pub mod Hello
pub mod Chunks
pub mod NoLoader
pub mod Panics
mod Tests
