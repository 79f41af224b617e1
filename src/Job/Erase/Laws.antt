-- ===== src/Job/Erase/Laws.antt =====
-- qedl-job/src/context.rs and jobs.rs: what erasing with zeros leaves on the disk, and when the
-- default `erase_sectors` panics.
use native.Mathlib.Nat.{add-mul, zero-mul, mul-le-mul_right, div-mul-le_self, one-mul}
use mathlib.Core.Path.{subst}
use qedl_rs.Prelude.{
  ℕ, zero, suc, ◌+◌, ◌-◌, ◌*◌, ◌/◌, ◌^◌, ◌≤◌, ◌<◌, ◌≡◌, refl, ap, ◌∙◌, sym, arith, min, max, true,
  leb, ltb, none, some, Bool-cases, ltb→lt, lt→ltb, le→leb, le→leb_false, [], inl, inr, length,
  take_all, drop_all, replicate, Outcome, ok, panic, hang, ◌>>=◌, ◌>>◌, in_bounds, >>=-eq-ok,
  in_bounds->>-eq-ok, if-eq_of_true, if-eq_of_false, ok_inj, Settles, Settles-bind, Settles-if,
  le_or_gt,
}
use qedl_rs.Prelude.Bytes.{Bytes}
use qedl_rs.Prelude.Words.{add64, sub64, mul64, add64_lem, mul64_lem}
use qedl_rs.Job.Context.{
  PartitionInfo, JobError, JobContext, JobResult, zero_buf_len, erase_loop, default_erase_sectors,
}
use qedl_rs.Job.Write.{pad, or_not_found}
use qedl_rs.Job.Erase.{write_zero, EraseJob, erase_with, erase_execute}
use qedl_rs.Job.Write.Laws.{Fits, total_sectors_lem}
use qedl_rs.Job.Disk.{IsDisk, Wrote}
use qedl_rs.Job.Write.Rounds.{le-mul_of_pos, chunk_split}
use qedl_rs.Job.Write.Loops.{round-Wrote, stop-Wrote}

zeros-eq-pad : (n : ℕ) → replicate n 0 ≡ pad n []
unfolding pad
zeros-eq-pad n = ap (λ k. replicate k 0) {x = n} {y = n - 0} (omega arith)

module _ {D : Type 0} {ctx : JobContext D} (k : IsDisk ctx) (p ss spc : ℕ) (pos : 0 < ss) where
  erase_loop-Wrote :
      (fuel sector remaining : ℕ) (d : D) {d' : D}
      → ctx.sector_size d ≡ ss
      → sector * ss + 0 * ss + remaining * ss < 2 ^ 64
      → sector * ss + 0 * ss + remaining * ss ≤ length (k.disk d p)
      → erase_loop ctx.write_sectors fuel p ss spc sector remaining d ≡ ok d'
      → Wrote k d d' p (sector * ss + 0 * ss) (pad (remaining * ss) [])
  unfolding erase_loop
  erase_loop-Wrote zero sector remaining d {d'} e small fits h =
      elim (Bool-cases (ltb 0 remaining)) [
        | inl more ↦ cc
        | inr done ↦
            stop-Wrote k p sector ss spc pos [] 0 remaining d d' done (omega arith)
              (ok_inj refl (if-eq_of_false (ltb 0 remaining) hang (ok d) done h))
      ]
  erase_loop-Wrote (suc fuel) sector remaining d {d'} e small fits h =
      elim (Bool-cases (ltb 0 remaining)) [
        | inl more ↦
            let chunk = min remaining spc in
            let bytes = mul64 chunk ss in
            let write = ctx.write_sectors p sector chunk (replicate bytes 0) d in
            let (d1, h1, h2) =
              >>=-eq-ok (in_bounds (leb bytes zero_buf_len) >> write)
                (λ d''.
                  erase_loop ctx.write_sectors fuel p ss spc (add64 sector chunk)
                    (remaining - chunk) d'')
                (if-eq_of_true (ltb 0 remaining) _ (ok d) more h) in
            let (inside, w) = in_bounds->>-eq-ok (leb bytes zero_buf_len) write h1 in
            let es : add64 sector 0 ≡ sector =
              add64_lem sector 0 (omega (arith, le-mul_of_pos sector ss pos)) ∙ (omega arith) in
            let eb : add64 sector chunk ≡ sector + chunk =
              add64_lem sector chunk
                (omega (arith, le-mul_of_pos sector ss pos, le-mul_of_pos remaining ss pos)) in
            let w' =
              ap (λ z. ctx.write_sectors p z chunk (pad bytes []) d) es
              ∙ ap (λ z. ctx.write_sectors p sector chunk z d) (sym (zeros-eq-pad bytes))
              ∙ w in
            let next =
              ap (λ z. erase_loop ctx.write_sectors fuel p ss spc z (remaining - chunk) d1) (sym eb)
              ∙ h2 in
            let eo : (sector + chunk) * ss + 0 * ss ≡ sector * ss + (0 + chunk) * ss =
              omega (arith, add-mul sector chunk ss, add-mul 0 chunk ss) in
            let split = chunk_split remaining chunk ss (omega arith) in
            round-Wrote k p sector ss spc pos [] [] 0 remaining e small fits (omega arith)
              (sym (take_all (chunk * ss) [] (omega arith))) w'
              λ e1 fits1.
                subst
                  (λ z.
                    Wrote k d1 d' p (sector * ss + (0 + chunk) * ss)
                      (pad ((remaining - chunk) * ss) z))
                  (sym (drop_all (chunk * ss) [] (omega arith)))
                  (subst (λ z. Wrote k d1 d' p z (pad ((remaining - chunk) * ss) [])) eo
                    (erase_loop-Wrote fuel (sector + chunk) (remaining - chunk) d1 e1
                      (omega (arith, add-mul sector chunk ss)) (omega (arith, eo)) next))
        | inr done ↦
            stop-Wrote k p sector ss spc pos [] 0 remaining d d' done (omega arith)
              (ok_inj refl (if-eq_of_false (ltb 0 remaining) _ (ok d) done h))
      ]

-- A successful default `erase_sectors` has put zeros on every sector of the range, and changed
-- nothing else, where the range lies on the disk and its bytes have addresses of 64 bits.
pub default_erase_sectors-Wrote :
    {D : Type 0} {ctx : JobContext D} (k : IsDisk ctx) (p start n : ℕ) (d d' : D)
    → (start + n) * ctx.sector_size d < 2 ^ 64
    → (start + n) * ctx.sector_size d ≤ length (k.disk d p)
    → default_erase_sectors ctx.write_sectors
        (ctx.sector_size d)
        (ctx.max_payload_size d)
        p
        start
        n
        d
      ≡ ok d'
    → Wrote k d d' p (start * ctx.sector_size d) (replicate (n * ctx.sector_size d) 0)
unfolding default_erase_sectors
default_erase_sectors-Wrote {D} {ctx} k p start n d d' small fits h =
    let ss = ctx.sector_size d in
    let spc = max (max (ctx.max_payload_size d) zero_buf_len / ss) 1 in
    let (divides, h1) =
      in_bounds->>-eq-ok (ltb 0 ss) (erase_loop ctx.write_sectors n p ss spc start n d) h in
    let pos = ltb→lt 0 ss divides in
    subst (λ z. Wrote k d d' p (start * ss) z) (sym (zeros-eq-pad (n * ss)))
      (subst (λ z. Wrote k d d' p z (pad (n * ss) [])) {x = start * ss + 0 * ss} {y = start * ss}
        (omega (arith, zero-mul ss))
        (erase_loop-Wrote k p ss spc pos n start n d refl
          (omega (arith, add-mul start n ss, zero-mul ss))
          (omega (arith, add-mul start n ss, zero-mul ss)) h1))

-- The default `erase_sectors` panics before any write if the sectors of its first chunk have more
-- bytes than the zero buffer, which is so for a payload above 512 KiB and enough sectors.
pub default_erase_sectors_panics :
    {D : Type 0} (write_sectors : ℕ → ℕ → ℕ → Bytes → D → Outcome JobError D)
    (sector_size max_payload p start n : ℕ) (d : D)
    → 0 < sector_size
    → 0 < n
    → zero_buf_len < mul64 (min n (max (max max_payload zero_buf_len / sector_size) 1)) sector_size
    → default_erase_sectors write_sectors sector_size max_payload p start n d ≡ panic
unfolding default_erase_sectors erase_loop
default_erase_sectors_panics write_sectors sector_size max_payload p start zero d h k l =
    absurd (omega arith)
default_erase_sectors_panics write_sectors sector_size max_payload p start (suc n) d h k l =
    let bytes =
      mul64 (min (suc n) (max (max max_payload zero_buf_len / sector_size) 1)) sector_size in
    rw (lt→ltb 0 sector_size h)
      (rw (lt→ltb 0 (suc n) k) (rw (le→leb_false bytes zero_buf_len l) refl))

module _ {D : Type 0} (write_sectors : ℕ → ℕ → ℕ → Bytes → D → Outcome JobError D)
    (settles : (p s n : ℕ) (bytes : Bytes) (d : D) → Settles (write_sectors p s n bytes d))
    (p ss spc : ℕ) where
  erase_loop-Settles :
      (fuel sector remaining : ℕ) (d : D)
      → 0 < spc
      → spc * ss ≤ zero_buf_len
      → remaining ≤ fuel
      → Settles (erase_loop write_sectors fuel p ss spc sector remaining d)
  unfolding erase_loop
  erase_loop-Settles zero sector remaining d h k l = ground arith
  erase_loop-Settles (suc fuel) sector remaining d h k l =
      let chunk = min remaining spc in
      let bytes = mul64 chunk ss in
      let small : chunk * ss ≤ zero_buf_len =
        omega (arith, mul-le-mul_right {m = chunk} {n = spc} ss (omega arith)) in
      let inside = le→leb bytes zero_buf_len (omega (arith, mul64_lem chunk ss (omega arith))) in
      Settles-if (ltb 0 remaining) _ _
        (λ more.
          let some_left = ltb→lt 0 remaining more in
          Settles-bind
            (in_bounds (leb bytes zero_buf_len)
              >> write_sectors p sector chunk (replicate bytes 0) d)
            _ (rw inside (settles p sector chunk (replicate bytes 0) d))
            λ d' _.
              erase_loop-Settles fuel (add64 sector chunk) (remaining - chunk) d' h k (omega arith))
        (λ _. tt)

-- With a payload of 512 KiB at most and a positive sector size no larger, the default `erase_sectors`
-- returns: it does not panic unless a write does, and its loop ends.
pub default_erase_sectors-Settles :
    {D : Type 0} (write_sectors : ℕ → ℕ → ℕ → Bytes → D → Outcome JobError D)
    (sector_size max_payload p start n : ℕ) (d : D)
    → ((q s m : ℕ) (bytes : Bytes) (e : D) → Settles (write_sectors q s m bytes e))
    → 0 < sector_size
    → sector_size ≤ zero_buf_len
    → max_payload ≤ zero_buf_len
    → Settles (default_erase_sectors write_sectors sector_size max_payload p start n d)
unfolding default_erase_sectors
default_erase_sectors-Settles write_sectors sector_size max_payload p start n d settles pos small
      le =
    let buffer = max max_payload zero_buf_len in
    let spc = max (buffer / sector_size) 1 in
    rw (lt→ltb 0 sector_size pos) (
      erase_loop-Settles write_sectors settles p sector_size spc n start n d (omega arith)
        (elim (le_or_gt (buffer / sector_size) 1) [
          | inl one ↦ omega (
            arith,
            ap (λ z. z * sector_size) {x = spc} {y = 1} (omega arith),
            one-mul sector_size,
          )
          | inr many ↦ omega (
            arith,
            ap (λ z. z * sector_size) {x = spc} {y = buffer / sector_size} (omega arith),
            div-mul-le_self buffer sector_size,
          )
        ])
        (omega arith))

pub erase_execute_eq :
    {D : Type 0} (ctx : JobContext D) (job : EraseJob) (entry : PartitionInfo) (d : D)
    → ctx.find_partition job.partition_name d ≡ some entry
    → job.erase_method ≡ write_zero
    → erase_execute ctx job d ≡ (
        ctx.erase_sectors entry.physical_partition entry.first_lba
          (add64 (sub64 entry.last_lba entry.first_lba) 1)
          d
        >>= λ d'. ok (record { success = true; steps_completed = 1 }, d'))
unfolding erase_execute erase_with or_not_found
erase_execute_eq ctx job entry d found zeros = rw found (rw zeros refl)

-- `EraseJob` with zeros, on a context with the default `erase_sectors`: after a successful run every
-- byte of the partition is zero and everything else on the disk is what it was, where the partition
-- lies on the disk and the sector size is positive.
pub erase_execute-Wrote :
    {D : Type 0} {ctx : JobContext D} (k : IsDisk ctx) (job : EraseJob) (entry : PartitionInfo)
    (d : D) (result : JobResult) (d' : D)
    → ((p s n : ℕ) (e : D)
        → ctx.erase_sectors p s n e
          ≡ default_erase_sectors ctx.write_sectors
              (ctx.sector_size e)
              (ctx.max_payload_size e)
              p
              s
              n
              e)
    → ctx.find_partition job.partition_name d ≡ some entry
    → job.erase_method ≡ write_zero
    → Fits k d entry
    → 0 < ctx.sector_size d
    → erase_execute ctx job d ≡ ok (result, d')
    → Wrote k d d' entry.physical_partition
        (entry.first_lba * ctx.sector_size d)
        (replicate ((entry.last_lba - entry.first_lba + 1) * ctx.sector_size d) 0)
erase_execute-Wrote {D} {ctx} k job entry d result d' default found zeros f pos h =
    let ss = ctx.sector_size d in
    let p = entry.physical_partition in
    let total = add64 (sub64 entry.last_lba entry.first_lba) 1 in
    let size = entry.last_lba - entry.first_lba + 1 in
    let et : total ≡ size = total_sectors_lem k (λ _ _. none) d entry f pos in
    let (d1, h1, h2) =
      >>=-eq-ok (ctx.erase_sectors p entry.first_lba total d)
        (λ d''. ok (record { success = true; steps_completed = 1 }, d''))
        (sym (erase_execute_eq ctx job entry d found zeros) ∙ h) in
    let whole : (entry.first_lba + total) * ss ≡ (entry.last_lba + 1) * ss =
      ap (λ z. z * ss) {x = entry.first_lba + total} {y = entry.last_lba + 1}
        (omega (arith, et, f.ordered)) in
    let w =
      default_erase_sectors-Wrote k p entry.first_lba total d d1
        (omega (arith, whole, f.addressable)) (omega (arith, whole, f.on_disk))
        (sym (default p entry.first_lba total d) ∙ h1) in
    subst (λ z. Wrote k d z p (entry.first_lba * ss) (replicate (size * ss) 0))
      (ap (λ z. z.1) (ok_inj refl h2))
      (subst (λ z. Wrote k d d1 p (entry.first_lba * ss) (replicate (z * ss) 0)) et w)
