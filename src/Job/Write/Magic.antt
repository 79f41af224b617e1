-- ===== src/Job/Write/Magic.antt =====
-- qedl-job/src/jobs.rs and qedl-image/src/sparse.rs: the two tests for a sparse image.
use qedl_rs.Prelude.{
  ℕ, zero, suc, ◌+◌, ◌*◌, ◌<◌, ◌≡◌, refl, ap, ◌∙◌, arith, true, false, Option, none, some,
  Option-cases, [], ◌∷◌, take, All, ok, err, ok_inj, inl, inr,
}
use qedl_rs.Prelude.Bytes.{Bytes, IsByte}
use qedl_rs.Image.Sparse.Format.{is_sparse}
use qedl_rs.Job.Context.{io}
use qedl_rs.Job.Write.{pad, read_magic, bytes_are, is_write_sparse}

first_byte_is :
    (a b c d : ℕ)
    → a < 256
    → a + 256 * (b + 256 * (c + 256 * (d + 256 * 0))) ≡ 0xED26FF3A
    → a ≡ 0x3A
first_byte_is a b c d h e = omega arith

no_magic : (a : ℕ) (xs : Bytes) → a ≡ 0x3A → is_write_sparse (a ∷ xs) ≡ false
unfolding is_write_sparse bytes_are
no_magic a xs h = ground arith

is_sparse_head : (x : ℕ) (xs : Bytes) → All IsByte (x ∷ xs) → is_sparse (x ∷ xs) ≡ true → x ≡ 0x3A
unfolding is_sparse
is_sparse_head x [] a h = cc
is_sparse_head x (y ∷ []) a h = cc
is_sparse_head x (y ∷ z ∷ []) a h = cc
is_sparse_head x (y ∷ z ∷ w ∷ rest) a h = ground (arith, a.0)

-- Whatever is read, the four bytes start with a zero or with the first byte of the file.
magic_of_read :
    (x : ℕ) (xs : Bytes) → x ≡ 0x3A → (n : ℕ) → is_write_sparse (pad 4 (take n (x ∷ xs))) ≡ false
unfolding pad is_write_sparse bytes_are
magic_of_read x xs h zero = refl
magic_of_read x xs h (suc n) = ground arith

pub read_magic_eq :
    (read : ℕ → ℕ → Option ℕ) (file : Bytes) (n : ℕ)
    → read 0 4 ≡ some n
    → read_magic read file ≡ ok (pad 4 (take n file))
unfolding read_magic
read_magic_eq read file n e = rw e refl

pub read_magic_fails :
    (read : ℕ → ℕ → Option ℕ) (file : Bytes) → read 0 4 ≡ none → read_magic read file ≡ err io
unfolding read_magic
read_magic_fails read file e = rw e refl

-- An image that `is_sparse` of the image crate accepts is never taken for a sparse one by `WriteJob`,
-- which therefore writes it as it is, not expanded.
pub is_sparse-is_write_sparse :
    (read : ℕ → ℕ → Option ℕ) (file magic : Bytes)
    → All IsByte file
    → is_sparse file ≡ true
    → read_magic read file ≡ ok magic
    → is_write_sparse magic ≡ false
unfolding is_sparse
is_sparse-is_write_sparse read [] magic a h e = cc
is_sparse-is_write_sparse read (x ∷ xs) magic a h e =
    let first = is_sparse_head x xs a h in
    elim (Option-cases (read 0 4)) [
      | inl failed ↦ let f = read_magic_fails read (x ∷ xs) failed in cc
      | inr (n, en) ↦
          ap is_write_sparse (ok_inj e (read_magic_eq read (x ∷ xs) n en))
          ∙ magic_of_read x xs first n
    ]
