-- ===== src/Image.antt =====
-- qedl-image: the images that are written to a device, and the files that tell what is written.
pub mod Sparse
pub mod Tasks
pub mod Patch
