-- ===== src/Job/Erase/Panics.antt =====
-- qedl-job/src/context.rs and jobs.rs: erasing with a payload larger than the zero buffer.
use native.Mathlib.Nat.{
  div-mul-le_self, lt-div-mul-add, div-lt_iff_lt-mul, le-div_iff_mul-le, add-mul, one-mul,
}
use qedl_rs.Prelude.{
  ℕ, ◌+◌, ◌-◌, ◌*◌, ◌/◌, ◌^◌, ◌≤◌, ◌<◌, ◌≡◌, ap, ◌∙◌, arith, min, max, true, none, some, panic,
  ◌>>=◌, ok,
}
use qedl_rs.Prelude.Words.{add64, sub64, mul64, mul64_lem}
use qedl_rs.Job.Context.{PartitionInfo, JobContext, zero_buf_len, default_erase_sectors}
use qedl_rs.Job.Erase.{write_zero, EraseJob, erase_execute}
use qedl_rs.Job.Erase.Laws.{erase_execute_eq, default_erase_sectors_panics}
use qedl_rs.Job.Write.Laws.{Fits, total_sectors_lem}
use qedl_rs.Job.Disk.{IsDisk}

-- The first chunk is as many whole sectors as the payload has room for.
first_chunk :
    (sector_size max_payload n : ℕ)
    → 0 < sector_size
    → zero_buf_len + sector_size ≤ max_payload
    → max_payload < 2 ^ 32
    → max_payload ≤ n * sector_size
    → zero_buf_len < mul64 (min n (max (max max_payload zero_buf_len / sector_size) 1)) sector_size
first_chunk sector_size max_payload n pos large small enough =
    let q = max_payload / sector_size in
    let some_sector : 1 ≤ q =
      (le-div_iff_mul-le {k = sector_size} {x = 1} {y = max_payload} pos).1
        (omega (arith, one-mul sector_size)) in
    let no_more : q < n + 1 =
      (div-lt_iff_lt-mul {k = sector_size} {x = max_payload} {y = n + 1} pos).1
        (omega (arith, add-mul n 1 sector_size, one-mul sector_size)) in
    let same : max max_payload zero_buf_len ≡ max_payload = omega arith in
    let quotient : max max_payload zero_buf_len / sector_size ≡ q =
      ap (λ z. z / sector_size) same in
    let chunk : min n (max (max max_payload zero_buf_len / sector_size) 1) ≡ q = omega arith in
    let bytes : mul64 (min n (max (max max_payload zero_buf_len / sector_size) 1)) sector_size
        ≡ q * sector_size =
      ap (λ z. mul64 z sector_size) chunk
      ∙ mul64_lem q sector_size (omega (arith, div-mul-le_self max_payload sector_size)) in
    omega (arith, bytes, lt-div-mul-add {a = max_payload} {b = sector_size} pos)

-- `EraseJob` with zeros, on a context with the default `erase_sectors`, panics if the payload has at
-- least a sector more than 512 KiB and the partition is no smaller than the payload. The sector size
-- is positive, the payload is a 32-bit number, and the partition lies on the disk.
pub erase_execute_panics :
    {D : Type 0} {ctx : JobContext D} (k : IsDisk ctx) (job : EraseJob) (entry : PartitionInfo)
    (d : D)
    → ((p s n : ℕ) (e : D)
        → ctx.erase_sectors p s n e
          ≡ default_erase_sectors ctx.write_sectors
              (ctx.sector_size e)
              (ctx.max_payload_size e)
              p
              s
              n
              e)
    → ctx.find_partition job.partition_name d ≡ some entry
    → job.erase_method ≡ write_zero
    → Fits k d entry
    → 0 < ctx.sector_size d
    → 512 * 1024 + ctx.sector_size d ≤ ctx.max_payload_size d
    → ctx.max_payload_size d < 2 ^ 32
    → ctx.max_payload_size d ≤ (entry.last_lba - entry.first_lba + 1) * ctx.sector_size d
    → erase_execute ctx job d ≡ panic
erase_execute_panics {D} {ctx} k job entry d default found zeros f pos large small enough =
    let total = add64 (sub64 entry.last_lba entry.first_lba) 1 in
    let size = entry.last_lba - entry.first_lba + 1 in
    let counted : total ≡ size = total_sectors_lem k (λ _ _. none) d entry f pos in
    let p = entry.physical_partition in
    erase_execute_eq ctx job entry d found zeros
    ∙ ap (λ m. m >>= λ d'. ok (record { success = true; steps_completed = 1 }, d'))
        (ap (λ z. ctx.erase_sectors p entry.first_lba z d) counted
          ∙ default p entry.first_lba size d
          ∙ default_erase_sectors_panics ctx.write_sectors (ctx.sector_size d)
              (ctx.max_payload_size d) p entry.first_lba size d pos (omega arith)
              (first_chunk (ctx.sector_size d) (ctx.max_payload_size d) size pos large small
                enough))
