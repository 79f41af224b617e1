-- ===== src/Job/Write/StreamLoop.antt =====
-- qedl-job/src/jobs.rs: the loop that writes a file as it reads it.
use native.Mathlib.Nat.{add-mul}
use mathlib.Core.Path.{subst}
use qedl_rs.Prelude.{
  ℕ, zero, suc, ◌+◌, ◌-◌, ◌*◌, ◌^◌, ◌≤◌, ◌<◌, ◌≡◌, refl, ap, ◌∙◌, sym, arith, min, leb, ltb, Option,
  [], length, take, drop, length-drop, Bool-cases, inl, inr, ok, hang, ◌>>=◌, ◌>>◌, in_bounds,
  >>=-eq-ok, in_bounds->>-eq-ok, if-eq_of_true, if-eq_of_false, ok_inj,
}
use qedl_rs.Prelude.Words.{add64, mul64, add64_lem, mul64_lem}
use qedl_rs.Job.Context.{JobContext}
use qedl_rs.Job.Reader.{ChunkedReader}
use qedl_rs.Job.Write.{pad, read_full, write_stream_loop}
use qedl_rs.Job.Disk.{IsDisk, Wrote}
use qedl_rs.Job.Write.Rounds.{le-mul_of_pos, chunk_split}
use qedl_rs.Job.Write.Loops.{round-Wrote, stop-Wrote}
use qedl_rs.Job.Write.Stream.{IsRead, unread, read_full-Filled}

module _ {D : Type 0} {ctx : JobContext D} (k : IsDisk ctx) (p start ss spc : ℕ) (pos : 0 < ss)
    (read : ℕ → ℕ → Option ℕ) where
  pub write_stream_loop-Wrote :
      (fuel : ℕ) (reader : ChunkedReader) (written remaining : ℕ) (d : D) {d' : D}
      → IsRead read (length reader.content)
      → 0 < reader.chunk_size
      → ctx.sector_size d ≡ ss
      → start * ss + written * ss + remaining * ss < 2 ^ 64
      → start * ss + written * ss + remaining * ss ≤ length (k.disk d p)
      → length (unread reader) ≤ remaining * ss
      → write_stream_loop ctx p start ss spc read fuel reader written remaining d ≡ ok d'
      → Wrote k d d' p (start * ss + written * ss) (pad (remaining * ss) (unread reader))
  unfolding write_stream_loop
  write_stream_loop-Wrote zero reader written remaining d {d'} good pc e small fits lu h =
      elim (Bool-cases (ltb 0 remaining)) [
        | inl more ↦ cc
        | inr done ↦
            stop-Wrote k p start ss spc pos (unread reader) written remaining d d' done lu
              (ok_inj refl (if-eq_of_false (ltb 0 remaining) hang (ok d) done h))
      ]
  write_stream_loop-Wrote (suc fuel) reader written remaining d {d'} good pc e small fits lu h =
      elim (Bool-cases (ltb 0 remaining)) [
        | inl more ↦
            let chunk = min remaining spc in
            let filled = read_full read (mul64 chunk ss) (mul64 chunk ss) [] reader in
            let (q, h1, h2) =
              >>=-eq-ok (in_bounds (leb (mul64 chunk ss) reader.chunk_size) >> filled)
                (λ (bytes, reader').
                  ctx.write_sectors p (add64 start written) chunk (pad (mul64 chunk ss) bytes) d
                  >>= λ d''.
                      write_stream_loop ctx p start ss spc read fuel reader' (add64 written chunk)
                        (remaining - chunk) d'')
                (if-eq_of_true (ltb 0 remaining) _ (ok d) more h) in
            let (inside, hr) =
              in_bounds->>-eq-ok (leb (mul64 chunk ss) reader.chunk_size) filled h1 in
            let (d1, w, h3) =
              >>=-eq-ok
                (ctx.write_sectors p (add64 start written) chunk (pad (mul64 chunk ss) q.0) d)
                (λ d''.
                  write_stream_loop ctx p start ss spc read fuel q.1 (add64 written chunk)
                    (remaining - chunk) d'')
                h2 in
            let split = chunk_split remaining chunk ss (omega arith) in
            let em : mul64 chunk ss ≡ chunk * ss = mul64_lem chunk ss (omega arith) in
            let eb : add64 written chunk ≡ written + chunk =
              add64_lem written chunk
                (omega (arith, le-mul_of_pos remaining ss pos, le-mul_of_pos written ss pos)) in
            let en : (written + chunk) * ss ≡ written * ss + chunk * ss =
              add-mul written chunk ss in
            let (ev, eu, ec, ez) =
              read_full-Filled read (mul64 chunk ss) (mul64 chunk ss) [] reader {b = q.0} {r' = q.1}
                good pc hr in
            let good1 : IsRead read (length q.1.content) =
              subst (λ z. IsRead read (length z)) (sym ec) good in
            let next =
              ap (λ z. write_stream_loop ctx p start ss spc read fuel q.1 z (remaining - chunk) d1)
                (sym eb)
              ∙ h3 in
            let to_chunk : mul64 chunk ss - 0 ≡ chunk * ss = omega (arith, em) in
            let after : unread q.1 ≡ drop (chunk * ss) (unread reader) =
              eu ∙ ap (λ z. drop z (unread reader)) to_chunk in
            round-Wrote k p start ss spc pos (unread reader) q.0 written remaining e small fits lu
              (ev ∙ ap (λ z. take z (unread reader)) to_chunk) w
              λ e1 fits1.
                subst
                  (λ z.
                    Wrote k d1 d' p (start * ss + (written + chunk) * ss)
                      (pad ((remaining - chunk) * ss) z))
                  after
                  (write_stream_loop-Wrote fuel q.1 (written + chunk) (remaining - chunk) d1 good1
                    (omega (arith, ez)) e1 (omega (arith, en)) fits1
                    (omega (arith, ap length after, length-drop (chunk * ss) (unread reader))) next)
        | inr done ↦
            stop-Wrote k p start ss spc pos (unread reader) written remaining d d' done lu
              (ok_inj refl (if-eq_of_false (ltb 0 remaining) _ (ok d) done h))
      ]
