-- ===== src/Job/Write/Refused.antt =====
-- qedl-job/src/jobs.rs and qedl-image/src/sparse.rs: a file that `WriteJob` takes for a sparse image
-- is refused by the expansion.
use qedl_rs.Prelude.{
  ℕ, zero, suc, ◌+◌, ◌*◌, ◌≡◌, refl, ap, ◌∙◌, sym, arith, true, false, Bool-cases, Option,
  Option-cases, [], ◌∷◌, leb, ◌==◌, ==_iff, length, take, ok, err, ok_inj, inl, inr,
}
use qedl_rs.Prelude.Bytes.{Bytes, from_le_bytes}
use qedl_rs.Image.Sparse.Format.{
  SparseError, read_sparse_header, header_too_short, invalid_magic, SparseHeader_from_bytes,
  read_exact, or_else, SparseExpander_new,
}
use qedl_rs.Image.Sparse.Expand.{expand_to_vec}
use qedl_rs.Job.Write.{pad, read_magic, bytes_are, is_write_sparse}
use qedl_rs.Job.Write.Magic.{read_magic_eq, read_magic_fails}

magic_differs : (n : ℕ) → (0xED + 256 * n == 0xED26FF3A) ≡ false
magic_differs n = elim (Bool-cases (0xED + 256 * n == 0xED26FF3A)) [
  | inl same ↦ absurd (omega (arith, (==_iff (0xED + 256 * n) 0xED26FF3A).0 same))
  | inr other ↦ other
]

header_refused : (bs : Bytes) → (e : SparseError) × (SparseHeader_from_bytes (0xED ∷ bs) ≡ err e)
unfolding SparseHeader_from_bytes
header_refused bs = elim (Bool-cases (leb 28 (length (0xED ∷ bs)))) [
  | inl long ↦ (
    invalid_magic (from_le_bytes (take 4 (0xED ∷ bs))),
    rw long (rw (magic_differs (from_le_bytes (take 3 bs))) refl),
  )
  | inr short ↦ (header_too_short, rw short refl)
]

-- The magic number of a sparse image does not start with the byte 0xED.
pub expand_to_vec_refused : (bs : Bytes) → (e : SparseError) × (expand_to_vec (0xED ∷ bs) ≡ err e)
unfolding expand_to_vec SparseExpander_new read_exact or_else
expand_to_vec_refused bs = elim (Bool-cases (leb 28 (length (0xED ∷ bs)))) [
  | inl long ↦ let (e, refused) = header_refused (take 27 bs) in (e, rw long (rw refused refl))
  | inr short ↦ (read_sparse_header, rw short refl)
]

-- The four bytes that the job compares with start with the first byte of the file.
head_of_read :
    (file : Bytes) (n : ℕ)
    → is_write_sparse (pad 4 (take n file)) ≡ true
    → (bs : Bytes) × (file ≡ 0xED ∷ bs)
unfolding pad is_write_sparse bytes_are
head_of_read [] zero h = cc
head_of_read [] (suc n) h = cc
head_of_read (x ∷ xs) zero h = cc
head_of_read (x ∷ xs) (suc n) h = elim (Bool-cases (x == 0xED)) [
  | inl first ↦ (xs, ap (λ z. z ∷ xs) ((==_iff x 0xED).0 first))
  | inr other ↦ absurd (ground (arith, h, other))
]

pub is_write_sparse-expand_to_vec :
    (read : ℕ → ℕ → Option ℕ) (file magic : Bytes)
    → read_magic read file ≡ ok magic
    → is_write_sparse magic ≡ true
    → (e : SparseError) × (expand_to_vec file ≡ err e)
is_write_sparse-expand_to_vec read file magic h sparse = elim (Option-cases (read 0 4)) [
  | inl failed ↦ let f = read_magic_fails read file failed in cc
  | inr (n, en) ↦
      let same : is_write_sparse (pad 4 (take n file)) ≡ true =
        ap is_write_sparse (sym (ok_inj h (read_magic_eq read file n en))) ∙ sparse in
      let (bs, head) = head_of_read file n same in
      let (e, refused) = expand_to_vec_refused bs in (e, ap expand_to_vec head ∙ refused)
]
