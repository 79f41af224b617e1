-- ===== src/Job/Dump/Loop.antt =====
-- qedl-job/src/jobs.rs: what the loop of `DumpJob` appends to the output file.
use native.Mathlib.Nat.{add-mul, zero-mul}
use qedl_rs.Prelude.{
  ℕ, zero, suc, ◌+◌, ◌-◌, ◌*◌, ◌^◌, ◌<◌, ◌≡◌, refl, ap, ◌∙◌, sym, arith, min, false, ltb,
  Bool-cases, ltb_false→le, ◌++◌, append_assoc, append-nil, inl, inr, take, drop, take-add,
  drop-drop, ok, hang, >>=-eq-ok, if-eq_of_true, if-eq_of_false, ok_inj,
}
use qedl_rs.Prelude.Bytes.{Bytes}
use qedl_rs.Prelude.Words.{add64, add64_lem}
use qedl_rs.Job.Context.{JobContext}
use qedl_rs.Job.Dump.{dump_loop}
use qedl_rs.Job.Disk.{IsDisk}
use qedl_rs.Job.Write.Rounds.{le-mul_of_pos, chunk_split}

module _ {D : Type 0} {ctx : JobContext D} (k : IsDisk ctx) (p ss spc : ℕ) (pos : 0 < ss) where
  dump_stop :
      (sector remaining : ℕ) (output : Bytes) (d : D) (out : Bytes) (d' : D)
      → ltb 0 remaining ≡ false
      → ◌≡◌ {A = Bytes × D} (output, d) (out, d')
      → (out ≡ output ++ take (remaining * ss) (drop (sector * ss) (k.disk d p)))
        × ((q : ℕ) → k.disk d' q ≡ k.disk d q)
  dump_stop sector remaining output d out d' done eq =
      let r : remaining * ss ≡ 0 =
        ap (λ w. w * ss) {x = remaining} {y = 0} (omega (arith, ltb_false→le 0 remaining done))
        ∙ zero-mul ss in
      (
        sym (ap (λ z. z.0) eq)
            ∙ sym (
                ap (λ z. output ++ take z (drop (sector * ss) (k.disk d p))) r ∙ append-nil output),
        λ q. sym (ap (λ z. k.disk z.1 q) eq),
      )

  -- The loop appends the bytes of the remaining sectors.
  pub dump_loop_lem :
      (fuel sector remaining : ℕ) (output : Bytes) (d : D) {out : Bytes} {d' : D}
      → ctx.sector_size d ≡ ss
      → sector * ss + remaining * ss < 2 ^ 64
      → dump_loop ctx p spc fuel sector remaining output d ≡ ok (out, d')
      → (out ≡ output ++ take (remaining * ss) (drop (sector * ss) (k.disk d p)))
        × ((q : ℕ) → k.disk d' q ≡ k.disk d q)
  unfolding dump_loop
  dump_loop_lem zero sector remaining output d {out} {d'} e small h =
      elim (Bool-cases (ltb 0 remaining)) [
        | inl more ↦ cc
        | inr done ↦
            dump_stop sector remaining output d out d' done
              (ok_inj refl (if-eq_of_false (ltb 0 remaining) hang (ok (output, d)) done h))
      ]
  dump_loop_lem (suc fuel) sector remaining output d {out} {d'} e small h =
      elim (Bool-cases (ltb 0 remaining)) [
        | inl more ↦
            let chunk = min remaining spc in
            let c = chunk * ss in
            let m = (remaining - chunk) * ss in
            let ((bytes, d1), h1, h2) =
              >>=-eq-ok (ctx.read_sectors p sector chunk d)
                (λ (b, e').
                  dump_loop ctx p spc fuel (add64 sector chunk) (remaining - chunk) (output ++ b)
                    e')
                (if-eq_of_true (ltb 0 remaining) _ (ok (output, d)) more h) in
            let (kd, ke) = k.read_keeps p sector chunk d bytes d1 p h1 in
            let split = chunk_split remaining chunk ss (omega arith) in
            let eb : add64 sector chunk ≡ sector + chunk =
              add64_lem sector chunk
                (omega (arith, le-mul_of_pos sector ss pos, le-mul_of_pos remaining ss pos)) in
            let es : (sector + chunk) * ss ≡ sector * ss + c = add-mul sector chunk ss in
            let next =
              ap (λ z. dump_loop ctx p spc fuel z (remaining - chunk) (output ++ bytes) d1) (sym eb)
              ∙ h2 in
            let rest =
              dump_loop_lem fuel (sector + chunk) (remaining - chunk) (output ++ bytes) d1
                {out = out} {d' = d'} (ke ∙ e) (omega (arith, es)) next in
            let x = drop (sector * ss) (k.disk d p) in
            (
              rest.0
                  ∙ append_assoc output bytes (take m (drop ((sector + chunk) * ss) (k.disk d1 p)))
                  ∙ ap (λ z. output ++ (z ++ take m (drop ((sector + chunk) * ss) (k.disk d1 p))))
                      (k.read_slices p sector chunk d bytes d1 h1
                        ∙ ap (λ z. take (chunk * z) (drop (sector * z) (k.disk d p))) e)
                  ∙ ap (λ z. output ++ (take c x ++ take m (drop ((sector + chunk) * ss) z))) kd
                  ∙ ap (λ z. output ++ (take c x ++ take m z))
                      (ap (λ z. drop z (k.disk d p)) es ∙ drop-drop (sector * ss) c (k.disk d p))
                  ∙ ap (λ z. output ++ z) (sym (take-add c m x))
                  ∙ ap (λ z. output ++ take z x) split,
              λ q. rest.1 q ∙ (k.read_keeps p sector chunk d bytes d1 q h1).0,
            )
        | inr done ↦
            dump_stop sector remaining output d out d' done
              (ok_inj refl (if-eq_of_false (ltb 0 remaining) _ (ok (output, d)) done h))
      ]
