-- ===== src/Image/Sparse.antt =====
-- qedl-image/src/sparse.rs: Android sparse images.
pub mod Format
pub mod Walk
pub mod Expand
pub mod Total
pub mod Encode
pub mod Header
pub mod Steps
pub mod NoProgress
pub mod RoundTrip
mod Tests
