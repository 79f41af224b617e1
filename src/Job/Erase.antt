-- ===== src/Job/Erase.antt =====
-- qedl-job/src/jobs.rs: `EraseJob`.
pub mod Laws
pub mod Panics
use qedl_rs.Prelude.{ℕ, true, Outcome, ok, ◌>>=◌}
use qedl_rs.Prelude.Words.{add64, sub64}
use qedl_rs.Job.Context.{Name, JobError, JobResult, JobContext}
use qedl_rs.Job.Write.{or_not_found}

pub data EraseMethod : Type 0 where
  write_zero native : EraseMethod

pub record EraseJob : Type 0 where
  pub partition_name : Name
  pub erase_method : EraseMethod

module _ {D : Type 0} (ctx : JobContext D) where
  -- The `match` on the method, which `FlashJob` has as well.
  unfoldable pub erase_with : EraseMethod → ℕ → ℕ → ℕ → D → Outcome JobError D
  erase_with native physical_partition start_sector num_sectors d =
      ctx.erase_sectors_native physical_partition start_sector num_sectors d
  erase_with write_zero physical_partition start_sector num_sectors d =
      ctx.erase_sectors physical_partition start_sector num_sectors d

  unfoldable pub erase_execute : EraseJob → D → Outcome JobError (JobResult × D)
  erase_execute job d = do
    entry ← or_not_found job.partition_name (ctx.find_partition job.partition_name d)
    let total_sectors = add64 (sub64 entry.last_lba entry.first_lba) 1
    d' ← erase_with job.erase_method entry.physical_partition entry.first_lba total_sectors d
    ok (record { success = true; steps_completed = 1 }, d')
