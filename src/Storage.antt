-- ===== src/Storage.antt =====
-- qedl-storage: GPT partition tables and the look-up of partitions.
pub mod Crc
pub mod Gpt
pub mod Names
pub mod Partition
mod Tests
