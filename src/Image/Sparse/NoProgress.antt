-- ===== src/Image/Sparse/NoProgress.antt =====
-- qedl-image/src/sparse.rs: a block size of zero.
use qedl_rs.Prelude.{
  ℕ, zero, suc, ◌+◌, ◌-◌, ◌<◌, ◌≡◌, refl, ap, ◌∙◌, arith, min, lt→ltb, replicate, ok, hang,
}
use qedl_rs.Image.Sparse.Format.{dont_care}
use qedl_rs.Image.Sparse.Walk.{dont_care_loop}
use qedl_rs.Image.Sparse.Expand.{ExpandState, extend_from_slice, expand_callback}

-- Nothing is appended.
nothing_appended :
    (n : ℕ) (s : ExpandState) → n ≡ 0 → expand_callback dont_care (replicate n 0) s ≡ ok s
unfolding expand_callback extend_from_slice
nothing_appended n s h = ap (λ k. expand_callback dont_care (replicate k 0) s) {x = n} {y = 0} h

-- With a block size of zero the loop over a skipped range of positive size never ends: whatever the
-- fuel, it is used up.
pub dont_care_loop_hangs :
    (fuel skip_size : ℕ) (s : ExpandState)
    → 0 < skip_size
    → dont_care_loop expand_callback fuel skip_size 0 0 s ≡ hang
unfolding dont_care_loop
dont_care_loop_hangs zero skip_size s h = rw (lt→ltb 0 skip_size h) refl
dont_care_loop_hangs (suc fuel) skip_size s h =
    let step = min (skip_size - 0) 0 in
    rw (lt→ltb 0 skip_size h) (
      rw (nothing_appended step s (omega arith)) (
        ap (λ k. dont_care_loop expand_callback fuel skip_size 0 k s) {x = 0 + step} {y = 0}
          (omega arith)
        ∙ dont_care_loop_hangs fuel skip_size s h))
