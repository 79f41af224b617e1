-- ===== src/Job/Write.antt =====
-- qedl-job/src/jobs.rs: `WriteJob`, and the two loops that it shares with `FlashJob`.
pub mod Rounds
pub mod Loops
pub mod Stream
pub mod StreamLoop
pub mod Laws
pub mod Total
pub mod Magic
pub mod Refused
use qedl_rs.Prelude.{
  ℕ, zero, suc, ◌+◌, ◌-◌, ◌*◌, ◌/◌, min, max, Bool, true, false, Option, none, some, List, [], ◌∷◌,
  ◌++◌, ltb, leb, ◌==◌, ◌&&◌, length, take, drop, replicate, Outcome, ok, err, panic, hang, ◌>>=◌,
  ◌>>◌, guard, in_bounds, if◌then◌else◌, match_option,
}
use qedl_rs.Prelude.Bytes.{Bytes, slice}
use qedl_rs.Prelude.Words.{add64, mul64, div_ceil}
use qedl_rs.Image.Sparse.Format.{SparseError}
use qedl_rs.Image.Sparse.Expand.{expand_to_vec}
use qedl_rs.Job.Context.{
  Name, PartitionInfo, partition_size_bytes, JobError, precondition_failed, io, image,
  partition_not_found, JobResult, JobContext,
}
use qedl_rs.Job.Reader.{ChunkedReader, ChunkedReader_new, read_chunk}

-- `Vec::resize(n, 0)` on a vector of `n` bytes at most; also `chunk_buffer[data_read..n].fill(0)`.
unfoldable pub pad : ℕ → Bytes → Bytes
pad n xs = xs ++ replicate (n - length xs) 0

-- `?` on a result of the image crate.
unfoldable pub from_image {ℓ} : {A : Type ℓ} → Outcome SparseError A → Outcome JobError A
from_image (ok a) = ok a
from_image (err e) = err (image e)
from_image panic = panic
from_image hang = hang

-- `?` on opening or reading a file.
unfoldable pub or_io {ℓ} : {A : Type ℓ} → Option A → Outcome JobError A
or_io none = err io
or_io (some a) = ok a

unfoldable pub or_not_found : Name → Option PartitionInfo → Outcome JobError PartitionInfo
or_not_found name none = err (partition_not_found name)
or_not_found name (some p) = ok p

-- `while data_read < chunk_bytes`, on fuel; `buf` holds the first `data_read` bytes of the buffer.
module _ (read : ℕ → ℕ → Option ℕ) where
  unfoldable pub read_full :
      ℕ → ℕ → Bytes → ChunkedReader → Outcome JobError (Bytes × ChunkedReader)
  read_full zero chunk_bytes buf r = if ltb (length buf) chunk_bytes then hang else ok (buf, r)
  read_full (suc fuel) chunk_bytes buf r =
      let round =
        (read_chunk read (chunk_bytes - length buf) r >>= λ (bytes, r').
        let rest = read_full fuel chunk_bytes (buf ++ bytes) r' in
        if length bytes == 0 then ok (buf, r') else rest) in
      if ltb (length buf) chunk_bytes then round else ok (buf, r)

module _ {D : Type 0} (ctx : JobContext D)
    (physical_partition start sector_size sectors_per_chunk : ℕ) where
  -- The loop over an expanded image, on fuel.
  unfoldable pub write_vec_loop : ℕ → Bytes → ℕ → ℕ → D → Outcome JobError D
  write_vec_loop zero bytes written remaining d = if ltb 0 remaining then hang else ok d
  write_vec_loop (suc fuel) bytes written remaining d =
      let chunk = min remaining sectors_per_chunk in
      let chunk_bytes = mul64 chunk sector_size in
      let from = mul64 written sector_size in
      let to = min (add64 from chunk_bytes) (length bytes) in
      let round =
        (in_bounds (leb from to)
          >> ctx.write_sectors physical_partition (add64 start written) chunk
              (pad chunk_bytes (slice bytes from to)) d
          >>= λ d'. write_vec_loop fuel bytes (add64 written chunk) (remaining - chunk) d') in
      if ltb 0 remaining then round else ok d

  -- The loop over a file that is read as it is written, on fuel.
  unfoldable pub write_stream_loop :
      (ℕ → ℕ → Option ℕ) → ℕ → ChunkedReader → ℕ → ℕ → D → Outcome JobError D
  write_stream_loop read zero reader written remaining d = if ltb 0 remaining then hang else ok d
  write_stream_loop read (suc fuel) reader written remaining d =
      let chunk = min remaining sectors_per_chunk in
      let chunk_bytes = mul64 chunk sector_size in
      let round =
        (in_bounds (leb chunk_bytes reader.chunk_size)
          >> read_full read chunk_bytes chunk_bytes [] reader
          >>= λ (bytes, reader').
              ctx.write_sectors physical_partition (add64 start written) chunk
                (pad chunk_bytes bytes) d
              >>= λ d'.
                  write_stream_loop read fuel reader' (add64 written chunk) (remaining - chunk)
                    d') in
      if ltb 0 remaining then round else ok d

-- `file.read(&mut magic)` into four zero bytes, which `read` fills with `n` bytes of the file.
unfoldable pub read_magic : (ℕ → ℕ → Option ℕ) → Bytes → Outcome JobError Bytes
read_magic read file = match_option (read 0 4) (err io) λ n. ok (pad 4 (take n file))

unfoldable pub bytes_are : Bytes → Bytes → Bool
bytes_are [] [] = true
bytes_are (x ∷ xs) (y ∷ ys) = x == y && bytes_are xs ys
bytes_are xs ys = false

-- `magic == [0xED, 0x26, 0xFF, 0x36]`
unfoldable pub is_write_sparse : Bytes → Bool
is_write_sparse magic = bytes_are magic (0xED ∷ 0x26 ∷ 0xFF ∷ 0x36 ∷ [])

-- `WriteJob`; `open_file` is the content of the file at the path, `none` where it cannot be read.
pub record WriteJob : Type 0 where
  pub partition_name : Name
  pub open_file : Option Bytes

module _ {D : Type 0} (ctx : JobContext D) (read : ℕ → ℕ → Option ℕ) where
  unfoldable pub write_sparse : PartitionInfo → Bytes → D → Outcome JobError D
  write_sparse entry file d = do
    let sector_size = ctx.sector_size d
    bytes ← from_image (expand_to_vec file)
    guard (leb (length bytes) (partition_size_bytes entry sector_size)) precondition_failed
    in_bounds (ltb 0 sector_size)
    let num_sectors = div_ceil (length bytes) sector_size
    let sectors_per_chunk = max (ctx.max_payload_size d / sector_size) 1
    write_vec_loop ctx entry.physical_partition entry.first_lba sector_size sectors_per_chunk
        num_sectors bytes 0 num_sectors d

  unfoldable pub write_raw : PartitionInfo → Bytes → D → Outcome JobError D
  write_raw entry file d = do
    let sector_size = ctx.sector_size d
    let chunk_size = max (ctx.max_payload_size d) sector_size
    let reader = ChunkedReader_new file chunk_size
    guard (leb reader.total_size (partition_size_bytes entry sector_size)) precondition_failed
    in_bounds (ltb 0 sector_size)
    let num_sectors = div_ceil reader.total_size sector_size
    let sectors_per_chunk = max (ctx.max_payload_size d / sector_size) 1
    write_stream_loop ctx entry.physical_partition entry.first_lba sector_size sectors_per_chunk
        read num_sectors reader 0 num_sectors d

  -- `WriteJob::execute`, built with the `sparse` feature.
  unfoldable pub write_execute : WriteJob → D → Outcome JobError (JobResult × D)
  write_execute job d = do
    entry ← or_not_found job.partition_name (ctx.find_partition job.partition_name d)
    file ← or_io job.open_file
    magic ← read_magic read file
    d' ← (if is_write_sparse magic then write_sparse entry file d else write_raw entry file d)
    ok (record { success = true; steps_completed = 1 }, d')
