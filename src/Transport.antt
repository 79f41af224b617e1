-- ===== src/Transport.antt =====
-- qedl-transport: the trait of a transport.
pub mod Port
pub mod Mock
pub mod Device
mod Tests
