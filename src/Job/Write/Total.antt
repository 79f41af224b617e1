-- ===== src/Job/Write/Total.antt =====
-- qedl-job/src/jobs.rs: `WriteJob` returns; its loops end and its slices are in range.
use native.Mathlib.Nat.{add-mul, one-mul, mul-le-mul_right, div-mul-le_self}
use qedl_rs.Prelude.{
  ℕ, zero, suc, ◌+◌, ◌-◌, ◌*◌, ◌/◌, ◌^◌, ◌≤◌, ◌<◌, ◌≡◌, refl, ap, sym, arith, min, max, true, false,
  leb, ltb, ◌==◌, Option, none, some, [], ◌++◌, length, length-append, ltb→lt, lt→ltb, le→leb,
  le_or_gt, inl, inr, Outcome, ok, Bool, ◌>>=◌, ◌>>◌, guard, in_bounds, in_bounds->>-eq-ok, Settles,
  Settles-bind, Settles-if, Settles-match_option, if◌then◌else◌,
}
use mathlib.Core.Path.{subst}
use qedl_rs.Prelude.Bytes.{Bytes, slice}
use qedl_rs.Prelude.Words.{add64, mul64, div_ceil, add64_lem, mul64_lem}
use qedl_rs.Job.Context.{
  Name, precondition_failed, PartitionInfo, partition_size_bytes, JobResult, JobContext,
}
use qedl_rs.Job.Reader.{ChunkedReader, ChunkedReader_new, read_chunk}
use qedl_rs.Job.Write.{
  pad, from_image, or_io, or_not_found, read_magic, is_write_sparse, read_full, write_vec_loop,
  write_stream_loop, write_sparse, write_raw, WriteJob, write_execute,
}
use qedl_rs.Job.Write.Laws.{or_io-eq-ok, some_inj}
use qedl_rs.Job.Write.Rounds.{le-mul_of_pos, chunk_split}
use qedl_rs.Job.Write.Stream.{IsRead, read_full-Filled}
use qedl_rs.Job.Write.Refused.{is_write_sparse-expand_to_vec}

module _ (read : ℕ → ℕ → Option ℕ) where
  read_chunk-Settles : (n : ℕ) (r : ChunkedReader) → Settles (read_chunk read n r)
  unfolding read_chunk
  read_chunk-Settles n r =
      Settles-match_option (read r.position (min n r.chunk_size)) _ _ (λ _. tt) (λ _ _. tt)

  read_full-Settles :
      (fuel chunk_bytes : ℕ) (buf : Bytes) (r : ChunkedReader)
      → chunk_bytes ≤ length buf + fuel
      → Settles (read_full read fuel chunk_bytes buf r)
  unfolding read_full
  read_full-Settles zero chunk_bytes buf r h =
      Settles-if (ltb (length buf) chunk_bytes) _ _
        (λ more. absurd (omega (arith, ltb→lt (length buf) chunk_bytes more))) (λ _. tt)
  read_full-Settles (suc fuel) chunk_bytes buf r h =
      Settles-if (ltb (length buf) chunk_bytes) _ _
        (λ more.
          Settles-bind (read_chunk read (chunk_bytes - length buf) r) _ (read_chunk-Settles _ r)
            λ q _.
              Settles-if (length q.0 == 0) _ _ (λ _. tt)
                (λ some_read.
                  read_full-Settles fuel chunk_bytes (buf ++ q.0) q.1
                    (ground (arith, length-append buf q.0))))
        (λ _. tt)

le_one-mul : (n s : ℕ) → 0 < n → s ≤ n * s
le_one-mul n s h = omega (arith, mul-le-mul_right {m = 1} {n = n} s (omega arith), one-mul s)

module _ {D : Type 0} (ctx : JobContext D)
    (settles : (p s n : ℕ) (bytes : Bytes) (d : D) → Settles (ctx.write_sectors p s n bytes d))
    (p start ss spc : ℕ) where
  write_stream_loop-Settles :
      (read : ℕ → ℕ → Option ℕ) (fuel : ℕ) (reader : ChunkedReader) (written remaining : ℕ) (d : D)
      → IsRead read (length reader.content)
      → 0 < reader.chunk_size
      → 0 < spc
      → spc * ss ≤ reader.chunk_size
      → reader.chunk_size < 2 ^ 64
      → remaining ≤ fuel
      → Settles (write_stream_loop ctx p start ss spc read fuel reader written remaining d)
  unfolding write_stream_loop
  write_stream_loop-Settles read zero reader written remaining d good pc ps fits small h =
      ground arith
  write_stream_loop-Settles read (suc fuel) reader written remaining d good pc ps fits small h =
      let chunk = min remaining spc in
      let bytes = mul64 chunk ss in
      let below = mul-le-mul_right {m = chunk} {n = spc} ss (omega arith) in
      let inside =
        le→leb bytes reader.chunk_size (omega (arith, below, mul64_lem chunk ss (omega arith))) in
      let filled = read_full read bytes bytes [] reader in
      Settles-if (ltb 0 remaining) _ _
        (λ more.
          let some_left = ltb→lt 0 remaining more in
          Settles-bind (in_bounds (leb bytes reader.chunk_size) >> filled) _
            (rw inside (read_full-Settles read bytes bytes [] reader (omega arith)))
            λ q e.
              Settles-bind (ctx.write_sectors p (add64 start written) chunk (pad bytes q.0) d) _
                (settles p (add64 start written) chunk (pad bytes q.0) d)
                λ d' _.
                  let (_, _, ec, ez) =
                    read_full-Filled read bytes bytes [] reader {b = q.0} {r' = q.1} good pc
                      (in_bounds->>-eq-ok (leb bytes reader.chunk_size) filled e).1 in
                  let good1 : IsRead read (length q.1.content) =
                    subst (λ z. IsRead read (length z)) (sym ec) good in
                  write_stream_loop-Settles read fuel q.1 (add64 written chunk) (remaining - chunk)
                    d' good1 (omega (arith, ez)) ps (omega (arith, ez)) (omega (arith, ez))
                    (omega arith))
        (λ _. tt)

  write_vec_loop-Settles :
      (fuel : ℕ) (bytes : Bytes) (written remaining : ℕ) (d : D)
      → 0 < ss
      → 0 < spc
      → written * ss + remaining * ss < length bytes + ss
      → length bytes + ss < 2 ^ 64
      → remaining ≤ fuel
      → Settles (write_vec_loop ctx p start ss spc fuel bytes written remaining d)
  unfolding write_vec_loop
  write_vec_loop-Settles zero bytes written remaining d pos ps inv small h = ground arith
  write_vec_loop-Settles (suc fuel) bytes written remaining d pos ps inv small h =
      let chunk = min remaining spc in
      Settles-if (ltb 0 remaining) _ _
        (λ more.
          let some_left = ltb→lt 0 remaining more in
          let split = chunk_split remaining chunk ss (omega arith) in
          let one = le_one-mul remaining ss some_left in
          let ef : mul64 written ss ≡ written * ss = mul64_lem written ss (omega arith) in
          let em : mul64 chunk ss ≡ chunk * ss = mul64_lem chunk ss (omega arith) in
          let ea = add64_lem (mul64 written ss) (mul64 chunk ss) (omega arith) in
          let to = min (add64 (mul64 written ss) (mul64 chunk ss)) (length bytes) in
          let inside = le→leb (mul64 written ss) to (omega arith) in
          let eb : add64 written chunk ≡ written + chunk =
            add64_lem written chunk
              (omega (arith, le-mul_of_pos remaining ss pos, le-mul_of_pos written ss pos)) in
          let write =
            ctx.write_sectors p (add64 start written) chunk
              (pad (mul64 chunk ss) (slice bytes (mul64 written ss) to)) d in
          Settles-bind (in_bounds (leb (mul64 written ss) to) >> write) _
            (rw inside (settles p _ chunk _ d))
            λ d' _.
              subst
                (λ z.
                  Settles (write_vec_loop ctx p start ss spc fuel bytes z (remaining - chunk) d'))
                (sym eb)
                (write_vec_loop-Settles fuel bytes (written + chunk) (remaining - chunk) d' pos ps
                  (omega (arith, add-mul written chunk ss)) small (omega arith)))
        (λ _. tt)

-- A chunk of as many sectors as fit in `n` bytes, and one at least, is no larger than `n` or a sector.
pub chunk-le : (n ss : ℕ) → max (n / ss) 1 * ss ≤ max n ss
chunk-le n ss = elim (le_or_gt (n / ss) 1) [
  | inl one ↦ omega (arith, ap (λ z. z * ss) {x = max (n / ss) 1} {y = 1} (omega arith), one-mul ss)
  | inr many ↦ omega (
    arith,
    ap (λ z. z * ss) {x = max (n / ss) 1} {y = n / ss} (omega arith),
    div-mul-le_self n ss,
  )
]

guard-Settles :
    {E A : Type 0} (b : Bool) (e : E) (m : Outcome E A)
    → (b ≡ true → Settles m)
    → Settles (guard b e >> m)
guard-Settles true e m h = h refl
guard-Settles false e m h = tt

module _ {D : Type 0} (ctx : JobContext D) (read : ℕ → ℕ → Option ℕ)
    (settles : (p s n : ℕ) (bytes : Bytes) (d : D)
      → Settles (ctx.write_sectors p s n bytes d)) where
  write_raw-Settles :
      (entry : PartitionInfo) (file : Bytes) (d : D)
      → IsRead read (length file)
      → 0 < ctx.sector_size d
      → ctx.sector_size d < 2 ^ 32
      → ctx.max_payload_size d < 2 ^ 32
      → Settles (write_raw ctx read entry file d)
  unfolding write_raw ChunkedReader_new
  write_raw-Settles entry file d good pos small_sector small_payload =
      let ss = ctx.sector_size d in
      let spc = max (ctx.max_payload_size d / ss) 1 in
      let n = div_ceil (length file) ss in
      let reader = ChunkedReader_new file (max (ctx.max_payload_size d) ss) in
      guard-Settles (leb (length file) (partition_size_bytes entry ss)) precondition_failed _ λ _.
        rw (lt→ltb 0 ss pos) (
          write_stream_loop-Settles ctx settles entry.physical_partition entry.first_lba ss spc read
            n reader 0 n d good (omega arith) (omega arith) (chunk-le (ctx.max_payload_size d) ss)
            (omega arith) (omega arith))

  -- The expansion of a file that is taken for a sparse image returns an error.
  write_sparse-Settles :
      (entry : PartitionInfo) (file magic : Bytes) (d : D)
      → read_magic read file ≡ ok magic
      → is_write_sparse magic ≡ true
      → Settles (write_sparse ctx read entry file d)
  unfolding write_sparse from_image
  write_sparse-Settles entry file magic d took sparse =
      let (e, refused) = is_write_sparse-expand_to_vec read file magic took sparse in rw refused tt

  or_not_found-Settles : (name : Name) (o : Option PartitionInfo) → Settles (or_not_found name o)
  unfolding or_not_found
  or_not_found-Settles name none = tt
  or_not_found-Settles name (some a) = tt

  or_io-Settles : (o : Option Bytes) → Settles (or_io o)
  unfolding or_io
  or_io-Settles none = tt
  or_io-Settles (some a) = tt

  read_magic-Settles : (file : Bytes) → Settles (read_magic read file)
  unfolding read_magic
  read_magic-Settles file = Settles-match_option (read 0 4) _ _ (λ _. tt) (λ _ _. tt)

  -- `WriteJob` returns, with a result or an error, where the calls of the context do: its loops end,
  -- however the reads of the file are cut, and no index is out of range. The sector size is positive,
  -- and the sizes are 32-bit numbers.
  pub write_execute-Settles :
      (job : WriteJob) (file : Bytes) (d : D)
      → job.open_file ≡ some file
      → IsRead read (length file)
      → 0 < ctx.sector_size d
      → ctx.sector_size d < 2 ^ 32
      → ctx.max_payload_size d < 2 ^ 32
      → Settles (write_execute ctx read job d)
  unfolding write_execute
  write_execute-Settles job file d opened good pos small_sector small_payload =
      Settles-bind (or_not_found job.partition_name (ctx.find_partition job.partition_name d)) _
        (or_not_found-Settles _ _)
        λ entry _. Settles-bind (or_io job.open_file) _ (or_io-Settles job.open_file) λ g e.
          let same : file ≡ g = some_inj opened (or_io-eq-ok job.open_file e) in
          subst
            (λ z. Settles {A = JobResult × D} (
              read_magic read z >>= λ magic.
              (if is_write_sparse magic
                then write_sparse ctx read entry z d
                else write_raw ctx read entry z d)
              >>= λ d'. ok (record { success = true; steps_completed = 1 }, d')))
            same
            (Settles-bind (read_magic read file) _ (read_magic-Settles file) λ magic em.
              Settles-bind
                (if is_write_sparse magic
                  then write_sparse ctx read entry file d
                  else write_raw ctx read entry file d)
                _
                (Settles-if (is_write_sparse magic) _ _
                  (λ es. write_sparse-Settles entry file magic d em es)
                  (λ _. write_raw-Settles entry file d good pos small_sector small_payload))
                λ _ _. tt)
