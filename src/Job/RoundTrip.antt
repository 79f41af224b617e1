-- ===== src/Job/RoundTrip.antt =====
-- qedl-job/src/jobs.rs: `WriteJob` followed by `DumpJob`.
use native.Mathlib.Nat.{mul-le-mul_right}
use qedl_rs.Prelude.{
  ℕ, ◌+◌, ◌-◌, ◌*◌, ◌≤◌, ◌<◌, ◌≡◌, sym, ap, ◌∙◌, arith, false, Option, some, ◌++◌, append_assoc,
  length, take, drop, replicate, length-take, take_append_exact, drop_append_exact, ok,
}
use qedl_rs.Prelude.Bytes.{Bytes, take-take}
use qedl_rs.Prelude.Words.{div_ceil}
use qedl_rs.Job.Context.{PartitionInfo, JobResult, JobContext}
use qedl_rs.Job.Write.{pad, WriteJob, write_execute}
use qedl_rs.Job.Dump.{DumpJob, dump_execute}
use qedl_rs.Job.Disk.{IsDisk, splice}
use qedl_rs.Job.Write.Laws.{Fits, sectors_of, partition_size_bytes_lem, write_execute-Wrote}
use qedl_rs.Job.Write.Stream.{IsRead}
use qedl_rs.Job.Dump.Laws.{dump_execute_fresh}

take-pad : (n : ℕ) (xs rest : Bytes) → take (length xs) (pad n xs ++ rest) ≡ xs
unfolding pad
take-pad n xs rest =
    ap (λ z. take (length xs) z) (append_assoc xs (replicate (n - length xs) 0) rest)
    ∙ take_append_exact xs (replicate (n - length xs) 0 ++ rest)

drop-splice :
    (o : ℕ) (ys xs : Bytes)
    → o ≤ length xs
    → drop o (splice o ys xs) ≡ ys ++ drop (o + length ys) xs
drop-splice o ys xs h =
    let l : length (take o xs) ≡ o = length-take o xs ∙ (omega arith) in
    ap (λ z. drop o z) (append_assoc (take o xs) ys (drop (o + length ys) xs))
    ∙ ap (λ z. drop z (take o xs ++ (ys ++ drop (o + length ys) xs))) (sym l)
    ∙ drop_append_exact (take o xs) (ys ++ drop (o + length ys) xs)

-- A dump of the partition that a successful `WriteJob` wrote starts with the bytes of the file that
-- was written, where the partition is found again and lies on the disk before and after.
pub dump_execute-write_execute :
    {D : Type 0} {ctx : JobContext D} (k : IsDisk ctx) (read : ℕ → ℕ → Option ℕ) (job : WriteJob)
    (dump : DumpJob) (entry : PartitionInfo) (file : Bytes) (d d1 d2 : D)
    (written dumped : JobResult) (out : Bytes)
    → ctx.find_partition job.partition_name d ≡ some entry
    → ctx.find_partition dump.partition_name d1 ≡ some entry
    → job.open_file ≡ some file
    → dump.resume ≡ false
    → Fits k d entry
    → Fits k d1 entry
    → 0 < ctx.sector_size d
    → IsRead read (length file)
    → write_execute ctx read job d ≡ ok (written, d1)
    → dump_execute ctx dump d1 ≡ ok (dumped, out, d2)
    → take (length file) out ≡ file
dump_execute-write_execute {D} {ctx} k read job dump entry file d d1 d2 written dumped out found
      again opened fresh f f1 pos good hw hd =
    let (small, wrote) =
      write_execute-Wrote k read job entry file d written d1 found opened f good hw in
    let (w, _, same) = wrote in
    let ss = ctx.sector_size d in
    let o = entry.first_lba * ss in
    let size = (entry.last_lba - entry.first_lba + 1) * ss in
    let p = entry.physical_partition in
    let x = k.disk d p in
    let y = sectors_of ss file in
    let eo =
      (dump_execute_fresh k dump entry d1 dumped out d2 again f1 (omega (arith, same)) fresh hd).0
      ∙ ap
          (λ z.
            take ((entry.last_lba - entry.first_lba + 1) * z)
              (drop (entry.first_lba * z) (k.disk d1 p)))
          same in
    let room : o ≤ length x = omega (
      arith,
      mul-le-mul_right {m = entry.first_lba} {n = entry.last_lba + 1} ss (omega (arith, f.ordered)),
      f.on_disk,
    ) in
    let fits : length file ≤ size = omega (arith, partition_size_bytes_lem k read d entry f pos) in
    ap (λ z. take (length file) z) eo
    ∙ take-take (length file) size (drop o (k.disk d1 p)) fits
    ∙ ap (λ z. take (length file) (drop o z)) w
    ∙ ap (λ z. take (length file) z) (drop-splice o y x room)
    ∙ take-pad (div_ceil (length file) ss * ss) file (drop (o + length y) x)
