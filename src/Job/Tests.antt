-- ===== src/Job/Tests.antt =====
-- The jobs run on the small disk.
use qedl_rs.Prelude.{
  Outcome, err, length-replicate, ℕ, ◌*◌, ◌≤◌, ◌≡◌, refl, arith, true, false, none, some, [], ◌∷◌,
  length, take, replicate, ok, panic, Settles,
}
use qedl_rs.Prelude.Bytes.{Bytes}
use qedl_rs.Job.Context.{default_erase_sectors}
use qedl_rs.Job.Disk.{Wrote}
use qedl_rs.Image.Sparse.Format.{is_sparse}
use qedl_rs.Job.Small.{
  partition, small_write, small_context, small_disk, small_write-Settles, one_by_one,
  one_by_one-IsRead, blank, after_write, three_bytes, finished, blank-Fits, after_write-Fits,
}
use qedl_rs.Job.Write.Total.{write_execute-Settles}
use qedl_rs.Job.Write.Magic.{is_sparse-is_write_sparse}
use qedl_rs.Job.Dump.{
  DumpJob, dump_start, resumed_size, opened_file, dump_loop, dump_from, dump_execute,
}
use qedl_rs.Job.Dump.Laws.{partition_bytes, dump_execute_fresh, dump_execute_resumed}
use qedl_rs.Job.RoundTrip.{dump_execute-write_execute}
use qedl_rs.Job.Erase.{EraseJob, write_zero, erase_with, erase_execute}
use qedl_rs.Job.Erase.Laws.{erase_execute-Wrote, default_erase_sectors-Settles}
use qedl_rs.Job.Erase.Panics.{erase_execute_panics}
use qedl_rs.Job.Context.{PartitionInfo, JobError, io, JobContext}
use qedl_rs.Job.Disk.{IsDisk}
use qedl_rs.Job.Write.Laws.{Fits}
use qedl_rs.Prelude.Words.{add64, sub64, mul64, div_ceil}
use qedl_rs.Job.Context.{partition_size_bytes, erase_loop}
use qedl_rs.Job.Reader.{read_chunk, ChunkedReader_new}
use qedl_rs.Job.Write.{
  pad, or_io, or_not_found, read_magic, bytes_are, is_write_sparse, read_full, write_stream_loop,
  write_raw, write_sparse, WriteJob, write_execute,
}
use qedl_rs.Job.Write.Laws.{sectors_of, write_execute-Wrote}

abbrev write_job : WriteJob
write_job = record { partition_name = b'a' ∷ []; open_file = some three_bytes }

write_runs : write_execute small_context (one_by_one 3) write_job blank ≡ ok (finished, after_write)
unfolding write_execute write_raw write_sparse read_magic is_write_sparse bytes_are or_io
    or_not_found write_stream_loop read_full read_chunk ChunkedReader_new pad add64 mul64 sub64
    div_ceil partition_size_bytes
write_runs = refl

write_execute-Wrote_example :
    (length three_bytes ≤ partition_size_bytes partition 2)
    × Wrote small_disk blank after_write 0 2 (sectors_of 2 three_bytes)
write_execute-Wrote_example =
    write_execute-Wrote small_disk (one_by_one 3) write_job partition three_bytes blank finished
      after_write refl refl blank-Fits (one_by_one-IsRead 3) write_runs

write_execute-Settles_example : Settles (write_execute small_context (one_by_one 3) write_job blank)
write_execute-Settles_example =
    write_execute-Settles small_context (one_by_one 3) small_write-Settles write_job three_bytes
      blank refl (one_by_one-IsRead 3) (omega arith) (omega arith) (omega arith)

abbrev dump_job : DumpJob
dump_job = record { partition_name = b'a' ∷ []; existing_file = none; resume = false }

abbrev resume_job : DumpJob
resume_job = record { partition_name = b'a' ∷ []; existing_file = some (1 ∷ 2 ∷ []); resume = true }

abbrev dumped : Bytes
dumped = 1 ∷ 2 ∷ 3 ∷ 0 ∷ []

dump_runs : dump_execute small_context dump_job after_write ≡ ok (finished, dumped, after_write)
unfolding dump_execute dump_from dump_loop dump_start resumed_size opened_file or_not_found add64
    sub64 mul64
dump_runs = refl

resume_runs : dump_execute small_context resume_job after_write ≡ ok (finished, dumped, after_write)
unfolding dump_execute dump_from dump_loop dump_start resumed_size opened_file or_not_found add64
    sub64 mul64
resume_runs = refl

dump_execute_fresh_example :
    (dumped ≡ partition_bytes small_disk after_write partition)
    × ((q : ℕ) → small_disk.disk after_write q ≡ small_disk.disk after_write q)
dump_execute_fresh_example =
    dump_execute_fresh small_disk dump_job partition after_write finished dumped after_write refl
      after_write-Fits (omega arith) refl dump_runs

resumed_prefix : 1 ∷ 2 ∷ [] ≡ take (1 * 2) (partition_bytes small_disk after_write partition)
unfolding small_disk
resumed_prefix = refl

dump_execute_resumed_example :
    (dumped ≡ partition_bytes small_disk after_write partition)
    × ((q : ℕ) → small_disk.disk after_write q ≡ small_disk.disk after_write q)
dump_execute_resumed_example =
    dump_execute_resumed small_disk resume_job partition (1 ∷ 2 ∷ []) 1 after_write finished dumped
      after_write refl after_write-Fits (omega arith) refl refl (omega arith) (omega arith)
      resumed_prefix resume_runs

dump_execute-write_execute_example : take (length three_bytes) dumped ≡ three_bytes
dump_execute-write_execute_example =
    dump_execute-write_execute small_disk (one_by_one 3) write_job dump_job partition three_bytes
      blank after_write after_write finished finished dumped refl refl refl refl blank-Fits
      after_write-Fits (omega arith) (one_by_one-IsRead 3) write_runs dump_runs

abbrev erase_job : EraseJob
erase_job = record { partition_name = b'a' ∷ []; erase_method = write_zero }

abbrev after_erase : Bytes
after_erase = 9 ∷ 9 ∷ 0 ∷ 0 ∷ 0 ∷ 0 ∷ 9 ∷ 9 ∷ []

erase_runs : erase_execute small_context erase_job blank ≡ ok (finished, after_erase)
unfolding erase_execute erase_with or_not_found default_erase_sectors erase_loop add64 sub64 mul64
erase_runs = refl

erase_execute-Wrote_example : Wrote small_disk blank after_erase 0 2 (replicate 4 0)
erase_execute-Wrote_example =
    erase_execute-Wrote small_disk erase_job partition blank finished after_erase (λ p s n e. refl)
      refl refl blank-Fits (omega arith) erase_runs

default_erase_sectors-Settles_example : Settles (default_erase_sectors small_write 2 4 0 1 2 blank)
default_erase_sectors-Settles_example =
    default_erase_sectors-Settles small_write 2 4 0 1 2 blank small_write-Settles (omega arith)
      (omega arith) (omega arith)

-- A device that refuses all reads and writes, with the payload of 1 MiB that the program asks for and
-- a partition of two large sectors.
abbrev large_partition : PartitionInfo
large_partition = record { name = b'a' ∷ []; first_lba = 0; last_lba = 1; physical_partition = 0 }

abbrev refusing_write : ℕ → ℕ → ℕ → Bytes → Unit {0} → Outcome JobError (Unit {0})
refusing_write p s n bytes d = err io

abbrev refusing : JobContext (Unit {0})
refusing = record {
  read_sectors = λ p s n d. err io;
  write_sectors = refusing_write;
  erase_sectors = λ p s n d. default_erase_sectors refusing_write 524288 1048576 p s n d;
  erase_sectors_native = λ p s n d. err io;
  sector_size = λ d. 524288;
  max_payload_size = λ d. 1048576;
  find_partition = λ name d. some large_partition;
}

unfoldable large_disk : Bytes
large_disk = replicate 1048576 9

length-large_disk : length large_disk ≡ 1048576
unfolding large_disk
length-large_disk = length-replicate {A = ℕ} 1048576 9

abbrev refusing_disk : IsDisk refusing
refusing_disk = record {
  disk = λ d p. large_disk;
  write_splices = λ p s n bytes d d' l h. cc;
  write_elsewhere = λ p s n bytes d d' q h. cc;
  write_keeps_size = λ p s n bytes d d' h. cc;
  read_slices = λ p s n d bytes d' h. cc;
  read_keeps = λ p s n d bytes d' q h. cc;
}

refusing-Fits : Fits refusing_disk tt large_partition
refusing-Fits = record {
  ordered = omega arith;
  on_disk = omega (arith, length-large_disk);
  addressable = omega arith;
}

erase_execute_panics_example : erase_execute refusing erase_job tt ≡ panic
erase_execute_panics_example =
    erase_execute_panics refusing_disk erase_job large_partition tt (λ p s n e. refl) refl refl
      refusing-Fits (omega arith) (omega arith) (omega arith) (omega arith)

sparse_file : is_sparse (0x3A ∷ 0xFF ∷ 0x26 ∷ 0xED ∷ []) ≡ true
unfolding is_sparse
sparse_file = refl

sparse_magic :
    read_magic (λ position want. some want) (0x3A ∷ 0xFF ∷ 0x26 ∷ 0xED ∷ [])
    ≡ ok (0x3A ∷ 0xFF ∷ 0x26 ∷ 0xED ∷ [])
unfolding read_magic pad
sparse_magic = refl

is_sparse-is_write_sparse_example : is_write_sparse (0x3A ∷ 0xFF ∷ 0x26 ∷ 0xED ∷ []) ≡ false
is_sparse-is_write_sparse_example =
    is_sparse-is_write_sparse (λ position want. some want) (0x3A ∷ 0xFF ∷ 0x26 ∷ 0xED ∷ [])
      (0x3A ∷ 0xFF ∷ 0x26 ∷ 0xED ∷ [])
      (omega arith, (omega arith, (omega arith, (omega arith, tt)))) sparse_file sparse_magic
