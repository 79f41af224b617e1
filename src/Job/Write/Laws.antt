-- ===== src/Job/Write/Laws.antt =====
-- qedl-job/src/jobs.rs: what `WriteJob` leaves on the disk.
use native.Mathlib.Nat.{add-mul, zero-mul, mul-le-mul_right}
use mathlib.Core.Path.{subst}
use qedl_rs.Prelude.{
  ℕ, ◌+◌, ◌-◌, ◌*◌, ◌/◌, ◌^◌, ◌≤◌, ◌<◌, ◌≡◌, refl, ap, ◌∙◌, sym, arith, max, leb, ltb, Option, none,
  some, Bool-cases, ltb→lt, leb→le, inl, inr, length, drop, Outcome, ok, err, panic, hang,
  >>=-eq-ok, in_bounds->>-eq-ok, guard->>-eq-ok, if-eq_of_true, if-eq_of_false, ok_inj,
  if◌then◌else◌,
}
use qedl_rs.Prelude.Bytes.{Bytes}
use qedl_rs.Prelude.Words.{
  add64, sub64, mul64, div_ceil, add64_lem, sub64_lem, mul64_lem, div_ceil-mul-le, le-div_ceil-mul,
}
use qedl_rs.Image.Sparse.Format.{SparseError}
use qedl_rs.Image.Sparse.Expand.{expand_to_vec}
use qedl_rs.Job.Context.{
  Name, precondition_failed, PartitionInfo, partition_size_bytes, JobResult, JobContext,
}
use qedl_rs.Job.Reader.{ChunkedReader_new}
use qedl_rs.Job.Write.{
  pad, from_image, or_io, or_not_found, read_magic, is_write_sparse, write_vec_loop,
  write_stream_loop, write_sparse, write_raw, WriteJob, write_execute,
}
use qedl_rs.Job.Disk.{IsDisk, Wrote}
use qedl_rs.Job.Write.Rounds.{le-mul_of_pos}
use qedl_rs.Job.Write.Loops.{write_vec_loop-Wrote}
use qedl_rs.Job.Write.Stream.{IsRead}
use qedl_rs.Job.Write.Refused.{is_write_sparse-expand_to_vec}
use qedl_rs.Job.Write.StreamLoop.{write_stream_loop-Wrote}

-- The partition lies on the disk, and its last byte has an address of 64 bits.
pub record Fits {D : Type 0} {ctx : JobContext D} (k : IsDisk ctx) (d : D) (entry : PartitionInfo)
    : Type 0 where
  pub ordered : entry.first_lba ≤ entry.last_lba
  pub on_disk :
      (entry.last_lba + 1) * ctx.sector_size d ≤ length (k.disk d entry.physical_partition)
  pub addressable : (entry.last_lba + 1) * ctx.sector_size d < 2 ^ 64

-- The bytes of an image, filled up to whole sectors.
abbrev pub sectors_of : ℕ → Bytes → Bytes
sectors_of sector_size contents =
    pad (div_ceil (length contents) sector_size * sector_size) contents

pub from_image-eq-ok : (m : Outcome SparseError Bytes) {a : Bytes} → from_image m ≡ ok a → m ≡ ok a
unfolding from_image
from_image-eq-ok (ok a) h = ap ok (ok_inj refl h)
from_image-eq-ok (err e) h = cc
from_image-eq-ok panic h = cc
from_image-eq-ok hang h = cc

pub or_not_found-eq-ok :
    (name : Name) (o : Option PartitionInfo) {a : PartitionInfo}
    → or_not_found name o ≡ ok a
    → o ≡ some a
unfolding or_not_found
or_not_found-eq-ok name none h = cc
or_not_found-eq-ok name (some a) h = ap some (ok_inj refl h)

pub or_io-eq-ok : (o : Option Bytes) {a : Bytes} → or_io o ≡ ok a → o ≡ some a
unfolding or_io
or_io-eq-ok none h = cc
or_io-eq-ok (some a) h = ap some (ok_inj refl h)

pub some_inj : {A : Type 0} {o : Option A} {a b : A} → o ≡ some a → o ≡ some b → a ≡ b
some_inj h k = cc

module _ {D : Type 0} {ctx : JobContext D} (k : IsDisk ctx) (read : ℕ → ℕ → Option ℕ) where
  -- The sectors of a partition, as the jobs count them.
  pub total_sectors_lem :
      (d : D) (entry : PartitionInfo)
      → Fits k d entry
      → 0 < ctx.sector_size d
      → add64 (sub64 entry.last_lba entry.first_lba) 1 ≡ entry.last_lba - entry.first_lba + 1
  total_sectors_lem d entry f pos =
      let bound = le-mul_of_pos (entry.last_lba + 1) (ctx.sector_size d) pos in
      ap (λ z. add64 z 1)
        (sub64_lem entry.last_lba entry.first_lba f.ordered (omega (arith, f.addressable)))
      ∙ add64_lem (entry.last_lba - entry.first_lba) 1 (omega (arith, f.addressable))

  -- The size of a partition that fits is that of its sectors.
  pub partition_size_bytes_lem :
      (d : D) (entry : PartitionInfo)
      → Fits k d entry
      → 0 < ctx.sector_size d
      → partition_size_bytes entry (ctx.sector_size d)
        ≡ (entry.last_lba - entry.first_lba + 1) * ctx.sector_size d
  unfolding partition_size_bytes
  partition_size_bytes_lem d entry f pos =
      let ss = ctx.sector_size d in
      let bound = le-mul_of_pos (entry.last_lba + 1) ss pos in
      ap (λ z. mul64 z ss) (total_sectors_lem d entry f pos)
      ∙ mul64_lem (entry.last_lba - entry.first_lba + 1) ss (
          omega (
            arith,
            f.addressable,
            f.ordered,
            mul-le-mul_right {m = entry.last_lba - entry.first_lba + 1} {n = entry.last_lba + 1} ss
                (omega arith),
          ))

  -- The sectors of an image no larger than the partition end within the partition.
  image_end :
      (d : D) (entry : PartitionInfo) (n : ℕ)
      → Fits k d entry
      → 0 < ctx.sector_size d
      → n ≤ partition_size_bytes entry (ctx.sector_size d)
      → entry.first_lba * ctx.sector_size d
          + 0 * ctx.sector_size d
          + div_ceil n (ctx.sector_size d) * ctx.sector_size d
        ≤ (entry.last_lba + 1) * ctx.sector_size d
  image_end d entry n f pos small =
      let ss = ctx.sector_size d in
      let size = entry.last_lba - entry.first_lba + 1 in
      let fits =
        div_ceil-mul-le n size ss (omega (arith, partition_size_bytes_lem d entry f pos)) in
      let whole : (entry.first_lba + size) * ss ≡ (entry.last_lba + 1) * ss =
        ap (λ z. z * ss) {x = entry.first_lba + size} {y = entry.last_lba + 1}
          (omega (arith, f.ordered)) in
      omega (arith, whole, add-mul entry.first_lba size ss, zero-mul ss)

  -- The loops start with no sector written.
  from_start :
      (p o : ℕ) (ss : ℕ) (ys : Bytes) {d d' : D}
      → Wrote k d d' p (o + 0 * ss) ys
      → Wrote k d d' p o ys
  from_start p o ss ys {d} {d'} w =
      subst (λ z. Wrote k d d' p z ys) {x = o + 0 * ss} {y = o} (omega (arith, zero-mul ss)) w

  write_raw-Wrote :
      (entry : PartitionInfo) (file : Bytes) (d : D) {d' : D}
      → Fits k d entry
      → IsRead read (length file)
      → write_raw ctx read entry file d ≡ ok d'
      → (length file ≤ partition_size_bytes entry (ctx.sector_size d))
        × Wrote k d d' entry.physical_partition
            (entry.first_lba * ctx.sector_size d)
            (sectors_of (ctx.sector_size d) file)
  unfolding write_raw ChunkedReader_new
  write_raw-Wrote entry file d {d'} f good h =
      let ss = ctx.sector_size d in
      let n = div_ceil (length file) ss in
      let spc = max (ctx.max_payload_size d / ss) 1 in
      let p = entry.physical_partition in
      let reader = ChunkedReader_new file (max (ctx.max_payload_size d) ss) in
      let (small, h1) =
        guard->>-eq-ok (leb (length file) (partition_size_bytes entry ss)) precondition_failed _
          h in
      let (divides, h2) =
        in_bounds->>-eq-ok (ltb 0 ss)
          (write_stream_loop ctx p entry.first_lba ss spc read n reader 0 n d) h1 in
      let pos = ltb→lt 0 ss divides in
      let end = image_end d entry (length file) f pos (leb→le (length file) _ small) in
      (
        leb→le (length file) (partition_size_bytes entry ss) small,
        from_start p (entry.first_lba * ss) ss (sectors_of ss file) (
            write_stream_loop-Wrote k p entry.first_lba ss spc pos read n reader 0 n d good
              (omega arith) refl (omega (arith, f.addressable)) (omega (arith, f.on_disk))
              (le-div_ceil-mul (length file) ss pos) h2),
      )

  write_sparse-Wrote :
      (entry : PartitionInfo) (file : Bytes) (d : D) {d' : D}
      → Fits k d entry
      → write_sparse ctx read entry file d ≡ ok d'
      → (contents : Bytes) × (expand_to_vec file ≡ ok contents)
        × (length contents ≤ partition_size_bytes entry (ctx.sector_size d))
        × Wrote k d d' entry.physical_partition
            (entry.first_lba * ctx.sector_size d)
            (sectors_of (ctx.sector_size d) contents)
  unfolding write_sparse
  write_sparse-Wrote entry file d {d'} f h =
      let ss = ctx.sector_size d in
      let spc = max (ctx.max_payload_size d / ss) 1 in
      let p = entry.physical_partition in
      let (c, h0, h1) = >>=-eq-ok (from_image (expand_to_vec file)) _ h in
      let n = div_ceil (length c) ss in
      let (small, h2) =
        guard->>-eq-ok (leb (length c) (partition_size_bytes entry ss)) precondition_failed _ h1 in
      let (divides, h3) =
        in_bounds->>-eq-ok (ltb 0 ss) (write_vec_loop ctx p entry.first_lba ss spc n c 0 n d) h2 in
      let pos = ltb→lt 0 ss divides in
      let end = image_end d entry (length c) f pos (leb→le (length c) _ small) in
      (
        c,
        from_image-eq-ok (expand_to_vec file) h0,
        leb→le (length c) (partition_size_bytes entry ss) small,
        from_start p (entry.first_lba * ss) ss (sectors_of ss c) (
            subst (λ z. Wrote k d d' p (entry.first_lba * ss + 0 * ss) (pad (n * ss) (drop z c)))
              (zero-mul ss)
              (write_vec_loop-Wrote k p entry.first_lba ss spc pos n c 0 n d refl
                (omega (arith, f.addressable)) (omega (arith, f.on_disk))
                (omega (arith, le-div_ceil-mul (length c) ss pos, zero-mul ss)) h3)),
      )

  -- The branch of the job that can succeed is the one that does not expand.
  write_run :
      {entry e : PartitionInfo} {file g : Bytes} {d d1 d' : D}
      → e ≡ entry
      → g ≡ file
      → d1 ≡ d'
      → Fits k d entry
      → IsRead read (length file)
      → (magic : Bytes) → read_magic read file ≡ ok magic
      → (if is_write_sparse magic then write_sparse ctx read e g d else write_raw ctx read e g d)
        ≡ ok d1
      → (length file ≤ partition_size_bytes entry (ctx.sector_size d))
        × Wrote k d d' entry.physical_partition
            (entry.first_lba * ctx.sector_size d)
            (sectors_of (ctx.sector_size d) file)
  write_run {entry} {e} {file} {g} {d} {d1} {d'} same_entry same_file same_state f good magic took
        h =
      let h' : (if is_write_sparse magic
            then write_sparse ctx read entry file d
            else write_raw ctx read entry file d)
          ≡ ok d' =
        ap
          (λ z.
            if is_write_sparse magic
            then write_sparse ctx read z file d
            else write_raw ctx read z file d)
          (sym same_entry)
        ∙ ap
            (λ z.
              if is_write_sparse magic
              then write_sparse ctx read e z d
              else write_raw ctx read e z d)
            (sym same_file)
        ∙ h
        ∙ ap ok same_state in
      elim (Bool-cases (is_write_sparse magic)) [
        | inl sparse ↦
            let (e', refused) = is_write_sparse-expand_to_vec read file magic took sparse in
            let (c, expanded, small, w) =
              write_sparse-Wrote entry file d f
                (if-eq_of_true (is_write_sparse magic) _ _ sparse h') in
            cc
        | inr raw ↦
            write_raw-Wrote entry file d f good (if-eq_of_false (is_write_sparse magic) _ _ raw h')
      ]

  -- After a successful run of `WriteJob`, the physical partition holds the bytes of the file at the
  -- first sector of the partition, filled up with zeros to a whole sector, and is otherwise what it
  -- was; no other physical partition has changed. This is so for every file, a sparse image too: no
  -- file whose expansion succeeds is expanded. The file is no larger than the partition, the
  -- partition lies on the disk, and each read of the file returns as many bytes as it likes.
  pub write_execute-Wrote :
      (job : WriteJob) (entry : PartitionInfo) (file : Bytes) (d : D) (result : JobResult) (d' : D)
      → ctx.find_partition job.partition_name d ≡ some entry
      → job.open_file ≡ some file
      → Fits k d entry
      → IsRead read (length file)
      → write_execute ctx read job d ≡ ok (result, d')
      → (length file ≤ partition_size_bytes entry (ctx.sector_size d))
        × Wrote k d d' entry.physical_partition
            (entry.first_lba * ctx.sector_size d)
            (sectors_of (ctx.sector_size d) file)
  unfolding write_execute
  write_execute-Wrote job entry file d result d' found opened f good h =
      let (e, h0, h1) =
        >>=-eq-ok (or_not_found job.partition_name (ctx.find_partition job.partition_name d)) _ h in
      let (g, h2, h3) = >>=-eq-ok (or_io job.open_file) _ h1 in
      let (magic, h4, h5) = >>=-eq-ok (read_magic read g) _ h3 in
      let run =
        if is_write_sparse magic then write_sparse ctx read e g d else write_raw ctx read e g d in
      let (d1, h6, h7) = >>=-eq-ok run _ h5 in
      let same_entry : e ≡ entry = some_inj (or_not_found-eq-ok _ _ h0) found in
      let same_file : g ≡ file = some_inj (or_io-eq-ok _ h2) opened in
      let same_state : d1 ≡ d' = ap (λ z. z.1) (ok_inj refl h7) in
      write_run same_entry same_file same_state f good magic
        (ap (λ z. read_magic read z) (sym same_file) ∙ h4) h6
