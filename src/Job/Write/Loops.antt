-- ===== src/Job/Write/Loops.antt =====
-- qedl-job/src/jobs.rs: what the write loops leave on the disk.
use native.Mathlib.Nat.{add-mul, zero-mul}
use mathlib.Core.Path.{subst}
use qedl_rs.Prelude.{
  ℕ, zero, suc, ◌+◌, ◌-◌, ◌*◌, ◌^◌, ◌≤◌, ◌<◌, ◌≡◌, refl, ap, ◌∙◌, sym, arith, min, false, ltb,
  length, take, drop, drop-drop, length-take, length-drop, Bool-cases, ltb_false→le, leb→le, inl,
  inr, ok, hang, >>=-eq-ok, in_bounds->>-eq-ok, if-eq_of_true, if-eq_of_false, ok_inj,
}
use qedl_rs.Prelude.Bytes.{Bytes, slice}
use qedl_rs.Prelude.Words.{add64, mul64, add64_lem, mul64_lem}
use qedl_rs.Job.Context.{JobContext}
use qedl_rs.Job.Write.{pad, write_vec_loop}
use qedl_rs.Job.Disk.{
  IsDisk, Wrote, write_sectors-Wrote, Wrote-rounds, Wrote-none, length-pad, length-splice,
}
use qedl_rs.Job.Write.Rounds.{le-mul_of_pos, chunk_split, slice-min}

module _ {D : Type 0} {ctx : JobContext D} (k : IsDisk ctx) (p start ss spc : ℕ)
    (pos : 0 < ss) where
  -- One call of `write_sectors` in a round, for a piece padded to the chunk, and what the rounds
  -- after it wrote.
  pub round-Wrote :
      (u v : Bytes) (written remaining : ℕ) {d d1 d2 : D}
      → let chunk = min remaining spc in
        ctx.sector_size d ≡ ss
        → start * ss + written * ss + remaining * ss < 2 ^ 64
        → start * ss + written * ss + remaining * ss ≤ length (k.disk d p)
        → length u ≤ remaining * ss
        → v ≡ take (chunk * ss) u
        → ctx.write_sectors p (add64 start written) chunk (pad (mul64 chunk ss) v) d ≡ ok d1
        → (ctx.sector_size d1 ≡ ss
            → start * ss + (written + chunk) * ss + (remaining - chunk) * ss ≤ length (k.disk d1 p)
            → Wrote k d1 d2 p
                (start * ss + (written + chunk) * ss)
                (pad ((remaining - chunk) * ss) (drop (chunk * ss) u)))
        → Wrote k d d2 p (start * ss + written * ss) (pad (remaining * ss) u)
  round-Wrote u v written remaining {d} {d1} {d2} e small fits lu ev w rest =
      let chunk = min remaining spc in
      let o = start * ss + written * ss in
      let split = chunk_split remaining chunk ss (omega arith) in
      let eo : (start + written) * ss ≡ o = add-mul start written ss in
      let es : add64 start written ≡ start + written =
        add64_lem start written (omega (arith, le-mul_of_pos (start + written) ss pos)) in
      let em : mul64 chunk ss ≡ chunk * ss = mul64_lem chunk ss (omega arith) in
      let w' =
        ap (λ z. ctx.write_sectors p z chunk (pad (chunk * ss) (take (chunk * ss) u)) d) (sym es)
        ∙ ap (λ z. ctx.write_sectors p (add64 start written) chunk (pad z (take (chunk * ss) u)) d)
            (sym em)
        ∙ ap (λ z. ctx.write_sectors p (add64 start written) chunk (pad (mul64 chunk ss) z) d)
            (sym ev)
        ∙ w in
      let y = pad (chunk * ss) (take (chunk * ss) u) in
      let ly : length y ≡ chunk * ss =
        length-pad (chunk * ss) (take (chunk * ss) u) (omega (arith, length-take (chunk * ss) u)) in
      let one =
        write_sectors-Wrote k p (start + written) chunk (pad (chunk * ss) (take (chunk * ss) u)) d
          d1 e ly w' in
      let one' = subst (λ z. Wrote k d d1 p z (pad (chunk * ss) (take (chunk * ss) u))) eo one in
      let size : length (k.disk d1 p) ≡ length (k.disk d p) =
        ap length one'.0 ∙ length-splice o y (k.disk d p) (omega (arith, ly)) in
      let rest' =
        subst (λ z. Wrote k d1 d2 p z (pad ((remaining - chunk) * ss) (drop (chunk * ss) u)))
          {x = start * ss + (written + chunk) * ss} {y = o + chunk * ss}
          (omega (arith, add-mul written chunk ss))
          (rest (one.2 ∙ e) (omega (arith, add-mul written chunk ss, size))) in
      subst (λ z. Wrote k d d2 p o (pad z u)) split
        (Wrote-rounds k p o (chunk * ss) ((remaining - chunk) * ss) u (omega arith) (omega arith)
          one' rest')

  -- No sector remains, and nothing is written.
  pub stop-Wrote :
      (u : Bytes) (written remaining : ℕ) (d d' : D)
      → ltb 0 remaining ≡ false
      → length u ≤ remaining * ss
      → d ≡ d'
      → Wrote k d d' p (start * ss + written * ss) (pad (remaining * ss) u)
  stop-Wrote u written remaining d d' z lu h =
      let r : remaining * ss ≡ 0 =
        ap (λ w. w * ss) {x = remaining} {y = 0} (omega (arith, ltb_false→le 0 remaining z))
        ∙ zero-mul ss in
      subst (λ w. Wrote k d w p (start * ss + written * ss) (pad (remaining * ss) u)) h
        (Wrote-none k p (start * ss + written * ss) (remaining * ss) u d r lu)

  pub write_vec_loop-Wrote :
      (fuel : ℕ) (bytes : Bytes) (written remaining : ℕ) (d : D) {d' : D}
      → ctx.sector_size d ≡ ss
      → start * ss + written * ss + remaining * ss < 2 ^ 64
      → start * ss + written * ss + remaining * ss ≤ length (k.disk d p)
      → length bytes ≤ written * ss + remaining * ss
      → write_vec_loop ctx p start ss spc fuel bytes written remaining d ≡ ok d'
      → Wrote k d d' p
          (start * ss + written * ss)
          (pad (remaining * ss) (drop (written * ss) bytes))
  unfolding write_vec_loop
  write_vec_loop-Wrote zero bytes written remaining d {d'} e small fits lb h =
      let lu : length (drop (written * ss) bytes) ≤ remaining * ss =
        omega (arith, length-drop (written * ss) bytes) in
      elim (Bool-cases (ltb 0 remaining)) [
        | inl more ↦ cc
        | inr done ↦
            stop-Wrote (drop (written * ss) bytes) written remaining d d' done lu
              (ok_inj refl (if-eq_of_false (ltb 0 remaining) hang (ok d) done h))
      ]
  write_vec_loop-Wrote (suc fuel) bytes written remaining d {d'} e small fits lb h =
      let lu : length (drop (written * ss) bytes) ≤ remaining * ss =
        omega (arith, length-drop (written * ss) bytes) in
      elim (Bool-cases (ltb 0 remaining)) [
        | inl more ↦
            let (d1, h1, h2) = >>=-eq-ok _ _ (if-eq_of_true (ltb 0 remaining) _ (ok d) more h) in
            let (inside, w) = in_bounds->>-eq-ok _ _ h1 in
            let chunk = min remaining spc in
            let split = chunk_split remaining chunk ss (omega arith) in
            let ef : mul64 written ss ≡ written * ss = mul64_lem written ss (omega arith) in
            let em : mul64 chunk ss ≡ chunk * ss = mul64_lem chunk ss (omega arith) in
            let ea : add64 (mul64 written ss) (mul64 chunk ss) ≡ written * ss + chunk * ss =
              add64_lem (mul64 written ss) (mul64 chunk ss) (omega arith) ∙ (omega arith) in
            let to = min (add64 (mul64 written ss) (mul64 chunk ss)) (length bytes) in
            let inside' = leb→le (mul64 written ss) to inside in
            let ev : slice bytes (mul64 written ss) to
                ≡ take (chunk * ss) (drop (written * ss) bytes) =
              ap (λ z. slice bytes z to) ef
              ∙ ap (λ z. slice bytes (written * ss) (min z (length bytes))) ea
              ∙ slice-min (written * ss) (chunk * ss) bytes (omega arith) in
            let eb : add64 written chunk ≡ written + chunk =
              add64_lem written chunk
                (omega (arith, le-mul_of_pos remaining ss pos, le-mul_of_pos written ss pos)) in
            let en : (written + chunk) * ss ≡ written * ss + chunk * ss =
              add-mul written chunk ss in
            let step' =
              ap (λ z. write_vec_loop ctx p start ss spc fuel bytes z (remaining - chunk) d1)
                (sym eb)
              ∙ h2 in
            round-Wrote (drop (written * ss) bytes) _ written remaining e small fits lu ev w
              λ e1 fits1.
                subst
                  (λ z.
                    Wrote k d1 d' p (start * ss + (written + chunk) * ss)
                      (pad ((remaining - chunk) * ss) z))
                  (ap (λ z. drop z bytes) en ∙ drop-drop (written * ss) (chunk * ss) bytes)
                  (write_vec_loop-Wrote fuel bytes (written + chunk) (remaining - chunk) d1 e1
                    (omega (arith, en)) fits1 (omega (arith, en)) step')
        | inr done ↦
            stop-Wrote (drop (written * ss) bytes) written remaining d d' done lu
              (ok_inj refl (if-eq_of_false (ltb 0 remaining) _ (ok d) done h))
      ]
