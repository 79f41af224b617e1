-- ===== src/Job/Context.antt =====
-- qedl-job/src/context.rs, error.rs and qedl-core/src/types.rs: what a job is given, and the
-- default `erase_sectors`.
use qedl_rs.Prelude.{
  ℕ, zero, suc, ◌-◌, ◌/◌, min, max, Option, ltb, leb, replicate, Bool, Outcome, ok, hang, ◌>>=◌,
  ◌>>◌, in_bounds, if◌then◌else◌,
}
use qedl_rs.Prelude.Bytes.{Bytes}
use qedl_rs.Prelude.Words.{add64, sub64, mul64}
use qedl_rs.Image.Sparse.Format.{SparseError}

-- A string, as its code points.
abbrev pub Name : Type 0
Name = Bytes

pub record PartitionInfo : Type 0 where
  pub name : Name
  pub first_lba : ℕ
  pub last_lba : ℕ
  pub physical_partition : ℕ

-- `PartitionInfo::size_bytes`
unfoldable pub partition_size_bytes : PartitionInfo → ℕ → ℕ
partition_size_bytes p sector_size = mul64 (add64 (sub64 p.last_lba p.first_lba) 1) sector_size

pub data JobError : Type 0 where
  step_failed precondition_failed transport sahara firehose storage io : JobError
  partition_not_found : Name → JobError
  image : SparseError → JobError

pub record JobResult : Type 0 where
  pub success : Bool
  pub steps_completed : ℕ

-- The methods of the trait that the jobs below call, over the state `D` of the object behind
-- `&mut dyn JobContext`.
pub record JobContext (D : Type 0) : Type 0 where
  pub read_sectors : ℕ → ℕ → ℕ → D → Outcome JobError (Bytes × D)
  pub write_sectors : ℕ → ℕ → ℕ → Bytes → D → Outcome JobError D
  pub erase_sectors : ℕ → ℕ → ℕ → D → Outcome JobError D
  pub erase_sectors_native : ℕ → ℕ → ℕ → D → Outcome JobError D
  pub sector_size : D → ℕ
  pub max_payload_size : D → ℕ
  pub find_partition : Name → D → Option PartitionInfo

-- `ZERO_BUF.len()`
abbrev pub zero_buf_len : ℕ
zero_buf_len = 524288

-- The two methods of the trait that its default `erase_sectors` calls are arguments.
module _ {D : Type 0} (write_sectors : ℕ → ℕ → ℕ → Bytes → D → Outcome JobError D) where
  -- `while remaining > 0`, on fuel; each round lowers `remaining` by one at least.
  unfoldable pub erase_loop : ℕ → ℕ → ℕ → ℕ → ℕ → ℕ → D → Outcome JobError D
  erase_loop zero physical_partition sector_size sectors_per_chunk sector remaining d =
      if ltb 0 remaining then hang else ok d
  erase_loop (suc fuel) physical_partition sector_size sectors_per_chunk sector remaining d =
      let chunk = min remaining sectors_per_chunk in
      let write_bytes = mul64 chunk sector_size in
      let round =
        (in_bounds (leb write_bytes zero_buf_len)
          >> write_sectors physical_partition sector chunk (replicate write_bytes 0) d
          >>= λ d'.
              erase_loop fuel physical_partition sector_size sectors_per_chunk (add64 sector chunk)
                (remaining - chunk) d') in
      if ltb 0 remaining then round else ok d

  -- `JobContext::erase_sectors`; the division panics on a zero sector size.
  unfoldable pub default_erase_sectors : ℕ → ℕ → ℕ → ℕ → ℕ → D → Outcome JobError D
  default_erase_sectors sector_size max_payload physical_partition start_sector num_sectors d = do
    in_bounds (ltb 0 sector_size)
    let chunk_bytes = max max_payload zero_buf_len
    let sectors_per_chunk = max (chunk_bytes / sector_size) 1
    erase_loop num_sectors physical_partition sector_size sectors_per_chunk start_sector num_sectors
        d
