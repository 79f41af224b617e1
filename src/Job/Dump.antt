-- ===== src/Job/Dump.antt =====
-- qedl-job/src/jobs.rs: `DumpJob`.
pub mod Loop
pub mod Laws
use qedl_rs.Prelude.{
  ℕ, zero, suc, ◌-◌, ◌/◌, min, max, Bool, true, false, Option, none, some, ltb, leb, ◌&&◌, List, [],
  ◌++◌, length, Outcome, ok, hang, ◌>>=◌, ◌>>◌, in_bounds, if◌then◌else◌, match_option,
}
use qedl_rs.Prelude.Bytes.{Bytes}
use qedl_rs.Prelude.Words.{add64, sub64, mul64}
use qedl_rs.Job.Context.{Name, PartitionInfo, JobError, JobResult, JobContext}
use qedl_rs.Job.Write.{or_not_found}

-- `existing_file` is the content of the file at the output path, where there is one.
pub record DumpJob : Type 0 where
  pub partition_name : Name
  pub existing_file : Option Bytes
  pub resume : Bool

-- Where a run starts: at a sector, or nowhere, since the file holds the partition already.
pub data DumpStart : Type 0 where
  from_sector : ℕ → DumpStart
  already_dumped : DumpStart

-- `if self.resume && self.output_path.exists()`, with the size of the file if both hold.
unfoldable pub dump_start : Option ℕ → ℕ → ℕ → ℕ → Outcome JobError DumpStart
dump_start none first_lba sector_size total_bytes = ok (from_sector first_lba)
dump_start (some file_size) first_lba sector_size total_bytes =
    if ltb 0 file_size && ltb file_size total_bytes
    then (in_bounds (ltb 0 sector_size)
        >> ok (from_sector (add64 first_lba (file_size / sector_size))))
    else if leb total_bytes file_size
    then ok already_dumped
    else ok (from_sector first_lba)

unfoldable pub resumed_size : DumpJob → Option ℕ
resumed_size job =
    if job.resume then match_option job.existing_file none (λ file. some (length file)) else none

-- What the output file holds once it is open: `truncate(!resume)`, `append(resume)`.
unfoldable pub opened_file : DumpJob → Bytes
opened_file job = if job.resume then match_option job.existing_file [] (λ file. file) else []

module _ {D : Type 0} (ctx : JobContext D) (physical_partition sectors_per_chunk : ℕ) where
  -- `while remaining > 0`, on fuel; `output` is the content of the output file.
  unfoldable pub dump_loop : ℕ → ℕ → ℕ → Bytes → D → Outcome JobError (Bytes × D)
  dump_loop zero sector remaining output d = if ltb 0 remaining then hang else ok (output, d)
  dump_loop (suc fuel) sector remaining output d =
      let chunk = min remaining sectors_per_chunk in
      let round =
        (ctx.read_sectors physical_partition sector chunk d >>= λ (bytes, d').
        dump_loop fuel (add64 sector chunk) (remaining - chunk) (output ++ bytes) d') in
      if ltb 0 remaining then round else ok (output, d)

module _ {D : Type 0} (ctx : JobContext D) where
  -- What follows the checks on the output file.
  unfoldable pub dump_from :
      DumpJob → PartitionInfo → ℕ → DumpStart → D → Outcome JobError (JobResult × Bytes × D)
  dump_from job entry total_sectors already_dumped d =
      ok (record { success = true; steps_completed = 0 }, opened_file job, d)
  dump_from job entry total_sectors (from_sector start_sector) d = do
    in_bounds (ltb 0 (ctx.sector_size d))
    let sectors_per_chunk = max (ctx.max_payload_size d / ctx.sector_size d) 1
    let remaining = sub64 total_sectors (sub64 start_sector entry.first_lba)
    (output, d') ←
        dump_loop ctx entry.physical_partition sectors_per_chunk remaining start_sector remaining
          (opened_file job) d
    ok (record { success = true; steps_completed = 1 }, output, d')

  -- `DumpJob::execute`, with the content of the output file after it.
  unfoldable pub dump_execute : DumpJob → D → Outcome JobError (JobResult × Bytes × D)
  dump_execute job d = do
    entry ← or_not_found job.partition_name (ctx.find_partition job.partition_name d)
    let total_sectors = add64 (sub64 entry.last_lba entry.first_lba) 1
    let total_bytes = mul64 total_sectors (ctx.sector_size d)
    start ← dump_start (resumed_size job) entry.first_lba (ctx.sector_size d) total_bytes
    dump_from job entry total_sectors start d
