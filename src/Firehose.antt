-- ===== src/Firehose.antt =====
-- qedl-firehose: commands, responses and the client of the Firehose protocol.
pub mod Command
pub mod Response
pub mod Client
