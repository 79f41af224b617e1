-- ===== src/Job/Dump/Laws.antt =====
-- qedl-job/src/jobs.rs: what `DumpJob` leaves in the output file.
use native.Mathlib.Nat.{add-mul, mul-div_cancel}
use qedl_rs.Prelude.{
  ℕ, ◌+◌, ◌-◌, ◌*◌, ◌/◌, ◌≤◌, ◌<◌, ◌≡◌, refl, ap, ◌∙◌, sym, arith, max, true, false, ltb, none,
  some, ltb→lt, lt→ltb, [], ◌++◌, length, take, drop, take-add, drop-drop, length-take, length-drop,
  ok, ◌>>=◌, >>=-eq-ok, in_bounds->>-eq-ok, ok_inj,
}
use qedl_rs.Prelude.Bytes.{Bytes, take-take}
use qedl_rs.Prelude.Words.{add64, sub64, mul64, add64_lem, sub64_lem, mul64_lem}
use qedl_rs.Job.Context.{PartitionInfo, JobContext, JobResult}
use qedl_rs.Job.Write.{or_not_found}
use qedl_rs.Job.Dump.{
  DumpJob, from_sector, dump_start, resumed_size, opened_file, dump_loop, dump_from, dump_execute,
}
use qedl_rs.Job.Disk.{IsDisk}
use qedl_rs.Job.Write.Rounds.{le-mul_of_pos}
use qedl_rs.Job.Write.Laws.{Fits, total_sectors_lem}
use qedl_rs.Job.Dump.Loop.{dump_loop_lem}

-- The bytes of the partition.
abbrev pub partition_bytes :
    {D : Type 0} {ctx : JobContext D} → IsDisk ctx → D → PartitionInfo → Bytes
partition_bytes {D} {ctx} k d entry =
    take ((entry.last_lba - entry.first_lba + 1) * ctx.sector_size d)
      (drop (entry.first_lba * ctx.sector_size d) (k.disk d entry.physical_partition))

module _ {D : Type 0} {ctx : JobContext D} (k : IsDisk ctx) where
  -- The run from a sector of the partition.
  dump_from_lem :
      (job : DumpJob) (entry : PartitionInfo) (total s : ℕ) (d : D) {result : JobResult}
      {out : Bytes} {d' : D}
      → Fits k d entry
      → entry.first_lba ≤ s
      → total ≡ entry.last_lba - entry.first_lba + 1
      → s ≤ entry.last_lba
      → dump_from ctx job entry total (from_sector s) d ≡ ok (result, out, d')
      → (out
          ≡ opened_file job
            ++ take
                ((entry.last_lba + 1 - s) * ctx.sector_size d)
                (drop (s * ctx.sector_size d) (k.disk d entry.physical_partition)))
        × ((q : ℕ) → k.disk d' q ≡ k.disk d q)
  unfolding dump_from
  dump_from_lem job entry total s d {result} {out} {d'} f lo et hi h =
      let ss = ctx.sector_size d in
      let spc = max (ctx.max_payload_size d / ss) 1 in
      let remaining = sub64 total (sub64 s entry.first_lba) in
      let loop =
        dump_loop ctx entry.physical_partition spc remaining s remaining (opened_file job) d in
      let (divides, h1) =
        in_bounds->>-eq-ok (ltb 0 ss)
          (loop >>= λ (o, e). ok (record { success = true; steps_completed = 1 }, o, e)) h in
      let pos = ltb→lt 0 ss divides in
      let (q, h2, h3) =
        >>=-eq-ok loop (λ (o, e). ok (record { success = true; steps_completed = 1 }, o, e)) h1 in
      let eq = ok_inj refl h3 in
      let bound = le-mul_of_pos (entry.last_lba + 1) ss pos in
      let er : remaining ≡ entry.last_lba + 1 - s =
        ap (λ z. sub64 total z) (sub64_lem s entry.first_lba lo (omega (arith, f.addressable)))
        ∙ sub64_lem total (s - entry.first_lba) (omega (arith, f.ordered))
            (omega (arith, f.addressable))
        ∙ (omega (arith, f.ordered)) in
      let whole : (s + remaining) * ss ≡ (entry.last_lba + 1) * ss =
        ap (λ z. z * ss) {x = s + remaining} {y = entry.last_lba + 1} (omega (arith, er)) in
      let r =
        dump_loop_lem k entry.physical_partition ss spc pos remaining s remaining (opened_file job)
          d {out = q.0} {d' = q.1} refl
          (omega (arith, add-mul s remaining ss, whole, f.addressable)) h2 in
      (
        sym (ap (λ z. z.1) eq)
            ∙ r.0
            ∙ ap
                (λ z.
                  opened_file job
                  ++ take (z * ss) (drop (s * ss) (k.disk d entry.physical_partition)))
                er,
        λ n. sym (ap (λ z. k.disk z.2 n) eq) ∙ r.1 n,
      )

  opened_file_fresh : (job : DumpJob) → job.resume ≡ false → opened_file job ≡ []
  unfolding opened_file
  opened_file_fresh job fresh = rw fresh refl

  opened_file_resumed :
      (job : DumpJob) (file : Bytes)
      → job.resume ≡ true
      → job.existing_file ≡ some file
      → opened_file job ≡ file
  unfolding opened_file
  opened_file_resumed job file resumed existing = rw resumed (rw existing refl)

  dump_execute_fresh_eq :
      (job : DumpJob) (entry : PartitionInfo) (d : D)
      → ctx.find_partition job.partition_name d ≡ some entry
      → job.resume ≡ false
      → dump_execute ctx job d
        ≡ dump_from ctx job entry
            (add64 (sub64 entry.last_lba entry.first_lba) 1)
            (from_sector entry.first_lba)
            d
  unfolding dump_execute or_not_found resumed_size dump_start
  dump_execute_fresh_eq job entry d found fresh = rw found (rw fresh refl)

  dump_execute_resumed_eq :
      (job : DumpJob) (entry : PartitionInfo) (file : Bytes) (d : D)
      → ctx.find_partition job.partition_name d ≡ some entry
      → job.resume ≡ true
      → job.existing_file ≡ some file
      → 0 < ctx.sector_size d
      → 0 < length file
      → length file < mul64 (add64 (sub64 entry.last_lba entry.first_lba) 1) (ctx.sector_size d)
      → dump_execute ctx job d
        ≡ dump_from ctx job entry
            (add64 (sub64 entry.last_lba entry.first_lba) 1)
            (from_sector (add64 entry.first_lba (length file / ctx.sector_size d)))
            d
  unfolding dump_execute or_not_found resumed_size dump_start
  dump_execute_resumed_eq job entry file d found resumed existing pos some_done not_all =
      let total = mul64 (add64 (sub64 entry.last_lba entry.first_lba) 1) (ctx.sector_size d) in
      rw found (
        rw resumed (
          rw existing (
            rw (lt→ltb 0 (length file) some_done) (
              rw (lt→ltb (length file) total not_all)
                (rw (lt→ltb 0 (ctx.sector_size d) pos) refl)))))

  -- A successful run that does not resume leaves the bytes of the partition in the output file, and
  -- the disk as it was, where the partition lies on the disk and the sector size is positive.
  pub dump_execute_fresh :
      (job : DumpJob) (entry : PartitionInfo) (d : D) (result : JobResult) (out : Bytes) (d' : D)
      → ctx.find_partition job.partition_name d ≡ some entry
      → Fits k d entry
      → 0 < ctx.sector_size d
      → job.resume ≡ false
      → dump_execute ctx job d ≡ ok (result, out, d')
      → (out ≡ partition_bytes k d entry) × ((q : ℕ) → k.disk d' q ≡ k.disk d q)
  dump_execute_fresh job entry d result out d' found f pos fresh h =
      let total = add64 (sub64 entry.last_lba entry.first_lba) 1 in
      let r =
        dump_from_lem job entry total entry.first_lba d {result = result} {out = out} {d' = d'} f
          (omega arith) (total_sectors_lem k (λ _ _. none) d entry f pos) f.ordered
          (sym (dump_execute_fresh_eq job entry d found fresh) ∙ h) in
      (
        r.0
            ∙ ap
                (λ z.
                  z
                  ++ take ((entry.last_lba + 1 - entry.first_lba) * ctx.sector_size d) (
                      drop (entry.first_lba * ctx.sector_size d)
                        (k.disk d entry.physical_partition)))
                (opened_file_fresh job fresh)
            ∙ ap
                (λ z.
                  take (z * ctx.sector_size d) (
                    drop (entry.first_lba * ctx.sector_size d) (k.disk d entry.physical_partition)))
                {x = entry.last_lba + 1 - entry.first_lba}
                {y = entry.last_lba - entry.first_lba + 1} (omega (arith, f.ordered)),
        r.1,
      )

  -- A successful run that resumes with a file of the first `m` whole sectors of the partition, one
  -- at least and not all, leaves the bytes of the whole partition in the file, and the disk as it
  -- was, where the partition lies on the disk and the sector size is positive.
  pub dump_execute_resumed :
      (job : DumpJob) (entry : PartitionInfo) (file : Bytes) (m : ℕ) (d : D) (result : JobResult)
      (out : Bytes) (d' : D)
      → ctx.find_partition job.partition_name d ≡ some entry
      → Fits k d entry
      → 0 < ctx.sector_size d
      → job.resume ≡ true
      → job.existing_file ≡ some file
      → 0 < m
      → m ≤ entry.last_lba - entry.first_lba
      → file ≡ take (m * ctx.sector_size d) (partition_bytes k d entry)
      → dump_execute ctx job d ≡ ok (result, out, d')
      → (out ≡ partition_bytes k d entry) × ((q : ℕ) → k.disk d' q ≡ k.disk d q)
  dump_execute_resumed job entry file m d result out d' found f pos resumed existing some_done
        not_all prefix h =
      let ss = ctx.sector_size d in
      let first = entry.first_lba in
      let size = entry.last_lba - first + 1 in
      let total = add64 (sub64 entry.last_lba first) 1 in
      let disk = k.disk d entry.physical_partition in
      let x = drop (first * ss) disk in
      let rest = (entry.last_lba + 1 - (first + m)) * ss in
      let bound = le-mul_of_pos (entry.last_lba + 1) ss pos in
      let et : total ≡ size = total_sectors_lem k (λ _ _. none) d entry f pos in
      let e_end : first * ss + size * ss ≡ (entry.last_lba + 1) * ss =
        sym (add-mul first size ss)
        ∙ ap (λ z. z * ss) {x = first + size} {y = entry.last_lba + 1} (omega (arith, f.ordered)) in
      let e_rest : m * ss + rest ≡ size * ss =
        sym (add-mul m (entry.last_lba + 1 - (first + m)) ss)
        ∙ ap (λ z. z * ss) {x = m + (entry.last_lba + 1 - (first + m))} {y = size}
            (omega (arith, f.ordered)) in
      let e_file : file ≡ take (m * ss) x =
        prefix ∙ take-take (m * ss) (size * ss) x (omega arith) in
      let e_len : length file ≡ m * ss =
        ap length e_file
        ∙ length-take (m * ss) x
        ∙ (omega (arith, length-drop (first * ss) disk, f.on_disk)) in
      let e_total : mul64 total ss ≡ size * ss =
        ap (λ z. mul64 z ss) et ∙ mul64_lem size ss (omega (arith, f.addressable)) in
      let e_start : add64 first (length file / ss) ≡ first + m =
        ap (λ z. add64 first (z / ss)) e_len
        ∙ ap (λ z. add64 first z) (mul-div_cancel m pos)
        ∙ add64_lem first m (omega (arith, f.addressable)) in
      let more : 0 < rest =
        omega (arith, le-mul_of_pos (entry.last_lba + 1 - (first + m)) ss pos) in
      let run =
        sym (
          dump_execute_resumed_eq job entry file d found resumed existing pos
            (omega (arith, le-mul_of_pos m ss pos)) (omega arith))
        ∙ h in
      let r =
        dump_from_lem job entry total (add64 first (length file / ss)) d {result = result}
          {out = out} {d' = d'} f (omega arith) et (omega arith) run in
      (
        r.0
            ∙ ap
                (λ z.
                  z
                  ++ take ((entry.last_lba + 1 - add64 first (length file / ss)) * ss)
                      (drop (add64 first (length file / ss) * ss) disk))
                (opened_file_resumed job file resumed existing ∙ e_file)
            ∙ ap (λ z. take (m * ss) x ++ take ((entry.last_lba + 1 - z) * ss) (drop (z * ss) disk))
                e_start
            ∙ ap (λ z. take (m * ss) x ++ take rest z)
                (ap (λ z. drop z disk) (add-mul first m ss) ∙ drop-drop (first * ss) (m * ss) disk)
            ∙ sym (take-add (m * ss) rest x)
            ∙ ap (λ z. take z x) e_rest,
        r.1,
      )
