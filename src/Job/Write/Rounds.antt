-- ===== src/Job/Write/Rounds.antt =====
-- The arithmetic of one round of the loops of qedl-job: `chunk = remaining.min(sectors_per_chunk)`.
use native.Mathlib.Nat.{add-mul, mul-suc}
use qedl_rs.Prelude.{
  ℕ, zero, suc, ◌+◌, ◌-◌, ◌*◌, ◌≤◌, ◌<◌, ◌≡◌, ap, ◌∙◌, sym, arith, min, length, take, drop,
  length-drop, take_all, le_or_gt, inl, inr,
}
use qedl_rs.Prelude.Bytes.{Bytes, slice}

-- A product is no less than its factor.
pub le-mul_of_pos : (n s : ℕ) → 0 < s → n ≤ n * s
le-mul_of_pos n zero h = elim h [ ]
le-mul_of_pos n (suc s) h = omega (arith, mul-suc n s)

-- The remaining bytes are those of the chunk and those after it.
pub chunk_split :
    (remaining chunk ss : ℕ)
    → chunk ≤ remaining
    → chunk * ss + (remaining - chunk) * ss ≡ remaining * ss
chunk_split remaining chunk ss h =
    sym (add-mul chunk (remaining - chunk) ss)
    ∙ ap (λ k. k * ss) {x = chunk + (remaining - chunk)} {y = remaining} (omega arith)

-- `data[from..(from + c).min(data.len())]` is the next `c` bytes, or what there is.
pub slice-min :
    (f c : ℕ) (xs : Bytes)
    → f ≤ length xs
    → slice xs f (min (f + c) (length xs)) ≡ take c (drop f xs)
slice-min f c xs h = elim (le_or_gt (f + c) (length xs)) [
  | inl inside ↦
      ap (λ k. take k (drop f xs)) {x = min (f + c) (length xs) - f} {y = c} (omega arith)
  | inr outside ↦
      take_all (min (f + c) (length xs) - f) (drop f xs) (omega (arith, length-drop f xs))
      ∙ sym (take_all c (drop f xs) (omega (arith, length-drop f xs)))
]
