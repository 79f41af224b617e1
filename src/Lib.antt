-- ===== src/Lib.antt =====
-- Verification of qedl-rs, a client for Qualcomm's emergency download mode: it talks to a device
-- over USB or a serial port (qedl-transport), loads a programmer onto it (qedl-sahara), drives that
-- programmer (qedl-firehose), reads its partition tables (qedl-storage), and runs jobs on the
-- partitions (qedl-job) with images from files (qedl-image).
--
-- The parts and their modules:
--   Prelude            lists, tests and words over the native numbers; `Outcome`, what a call can
--                      do: return, fail with an error value, panic, or (`hang`) use up the fuel of a
--                      loop of the model. `Settles` says that a call returns or fails.
--   Text               the texts of the code as lists of bytes, with what it uses of Rust's strings:
--                      search, numbers in decimal and hexadecimal, lossy decoding of UTF-8, words.
--   Core/State         qedl-core/src/state.rs: the device's life cycle.
--   Image/Sparse       qedl-image/src/sparse.rs: Format has the headers and the cursor, Walk
--                      `for_each_chunk` over the state of its callback, Expand `expand_to_vec`,
--                      Encode the description of sparse images that it is compared with.
--   Image/Tasks, Patch  qedl-image/src/rawprogram.rs and patch.rs: the files that list what is written
--                      and what is patched.
--   Storage            qedl-storage/src/gpt.rs (Crc, Gpt/Header, Gpt/Entry, Gpt/Table) and
--                      partition.rs (Names, Partition).
--   Transport/Port     qedl-transport/src/port.rs: the trait `Transport` and its `read_exact`. Laws
--                      has what other modules ask of a transport: `IsTransport`, `IsStream`, `IsLog`.
--   Transport/Mock     qedl-transport/src/mock.rs: `MockTransport`, an instance of the trait.
--   Transport/Device   qedl-transport/src/device.rs: the choice of a device, the wait for one, and
--                      the switch of a device in DIAG mode to EDL; Frame has the frames of DIAG.
--   Sahara             qedl-sahara/src/session.rs and protocol.rs, qedl-core/src/protocol/sahara.rs:
--                      Protocol has commands and packets, Session the state and the upload of the
--                      loader, Exec command mode, Handshake the handshake and its recoveries.
--   Firehose/Command, Response   qedl-firehose/src/command.rs (`to_xml`) and response.rs (`from_xml`).
--   Firehose/Client    qedl-firehose/src/client.rs: the state and `read_response` at the top, Calls
--                      the commands, Sectors reads and writes, Memory `peek` and the messages at the
--                      start. Line is a device that the tests talk to.
--   Job/Context        qedl-job/src/context.rs: the trait `JobContext` as a record of functions over
--                      the state of its implementation, and the default `erase_sectors`.
--   Job/Reader         qedl-job/src/reader.rs: `ChunkedReader`.
--   Job/Write, Erase, Dump   qedl-job/src/jobs.rs: `WriteJob`, `EraseJob`, `DumpJob`.
--   Job/Disk           the contract `IsDisk` between jobs and contexts: calls that return have read
--                      or written a disk of bytes. Job/Small is an instance.
--   Executor           qedl-job/src/executor.rs with `Session` of qedl-core/src/session.rs: Connect
--                      has the ways to a ready device, Gpt the reading of tables, Device the context
--                      for jobs. Ready and Reach are about the states that the calls lead to.
--
-- A job finds its partition through the context, reads the image through `ChunkedReader` or expands
-- it with `expand_to_vec`, and hands sectors to the context. The executor is such a context: it
-- chooses a device, opens its port, gives the port to a Sahara session and gets it back, and from
-- then on calls the Firehose client with it. The client keeps what a read took too much of (its
-- leftover) for the next one.
--
-- Conventions. Arithmetic is that of a release build: it wraps at the width of the type. An index
-- out of range panics. Memory is unlimited, but a vector that would need more than `isize::MAX`
-- bytes panics. Texts are lists of code points in names of partitions, and lists of bytes in UTF-8
-- elsewhere; `to_lowercase` on the names of tags and of memories is the one of ASCII. The states of
-- the job code are not kept past an error; those of the transport, the Sahara code, the Firehose client and
-- the executor are. Creating and writing the output file of a dump succeeds. Logging, events,
-- progress and timing are left out; so are the texts of messages.
--
-- Fuel. The loops of the jobs have the number of sectors that remain, since each round takes one at
-- least; `read_exact`, the reading of a chunk and the data of `read_sectors` have the number of
-- bytes that are wanted; the walk over a sparse image has the length of the file and one, since each
-- round reads twelve bytes; a skipped range has its size. Where the device decides how long a loop
-- runs, the caller gives the fuel: the upload of the loader, `read_response`, `peek`, the messages
-- at the start, the waits for a device. For `read_response` 131074 rounds are enough if the device
-- sends something each time, since the buffer has a limit.
--
-- Parameters, for code outside the repository: how many bytes one read of a file returns (`IsRead`),
-- how a transport reads (`IsTransport`, `IsStream`, `IsLog`, `Ends`), `str::to_lowercase` on names of
-- partitions, whether the text of some bytes contains ACK, the events that the XML reader makes of a
-- text (`xml_events`), the ports and the clock of the host (`Host`), and the opening of a port.
--
-- Not modelled: `FlashJob`, `VerifyJob` and the jobs that only display or forward, the mock context of
-- the tests, the checksums of images, the serial and USB transports, the command line, and the crate
-- qedl. The last ones are device I/O, calls of other crates, argument parsing and display.
pub mod Prelude
pub mod Core
pub mod Image
pub mod Storage
pub mod Text
pub mod Transport
pub mod Firehose
pub mod Sahara
pub mod Job
pub mod Executor
