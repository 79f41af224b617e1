-- ===== src/Job/Small.antt =====
-- A small disk that is kept as bytes, for the tests of the jobs: sectors of two bytes, payloads of
-- four, one physical partition.
use qedl_rs.Prelude.{
  ℕ, zero, suc, ◌+◌, ◌-◌, ◌*◌, ◌≡◌, refl, ap, ◌∙◌, sym, arith, min, Bool, true, false, leb, ◌==◌,
  ==_iff, ◌&&◌, Bool-cases, Option, some, [], ◌∷◌, ◌⊎◌, inl, inr, length, take, drop, Outcome, ok,
  err, if◌then◌else◌, if-eq_of_true, if-eq_of_false, ok_inj, Settles,
}
use qedl_rs.Prelude.Bytes.{Bytes}
use qedl_rs.Job.Context.{JobError, io, PartitionInfo, JobResult, JobContext, default_erase_sectors}
use qedl_rs.Job.Disk.{IsDisk, splice}
use qedl_rs.Job.Write.Stream.{IsRead}
use qedl_rs.Job.Write.Laws.{Fits, some_inj}

abbrev pub partition : PartitionInfo
partition = record { name = b'a' ∷ []; first_lba = 1; last_lba = 2; physical_partition = 0 }

abbrev pub fits : ℕ → ℕ → Bytes → Bool
fits p end d = p == 0 && leb end (length d)

abbrev pub small_write : ℕ → ℕ → ℕ → Bytes → Bytes → Outcome JobError Bytes
small_write p s n bytes d =
    if fits p (s * 2 + length bytes) d then ok (splice (s * 2) bytes d) else err io

abbrev pub small_read : ℕ → ℕ → ℕ → Bytes → Outcome JobError (Bytes × Bytes)
small_read p s n d =
    if fits p (s * 2 + n * 2) d then ok (take (n * 2) (drop (s * 2) d), d) else err io

abbrev pub small_context : JobContext Bytes
small_context = record {
  read_sectors = small_read;
  write_sectors = small_write;
  erase_sectors = λ p s n d. default_erase_sectors small_write 2 4 p s n d;
  erase_sectors_native = λ p s n d. default_erase_sectors small_write 2 4 p s n d;
  sector_size = λ d. 2;
  max_payload_size = λ d. 4;
  find_partition = λ name d. some partition;
}

abbrev pub small_view : Bytes → ℕ → Bytes
small_view d q = if q == 0 then d else []

left_of_and : (a b : Bool) → (a && b) ≡ true → a ≡ true
left_of_and true b h = refl
left_of_and false b h = cc

pub small_write_lem :
    (p s n : ℕ) (bytes d d' : Bytes)
    → small_write p s n bytes d ≡ ok d'
    → (p ≡ 0) × (d' ≡ splice (s * 2) bytes d)
small_write_lem p s n bytes d d' h =
    let b = fits p (s * 2 + length bytes) d in
    elim (Bool-cases b) [
      | inl inside ↦ (
        (==_iff p 0).0 (left_of_and (p == 0) (leb (s * 2 + length bytes) (length d)) inside),
        sym (ok_inj refl (if-eq_of_true b (ok (splice (s * 2) bytes d)) (err io) inside h)),
      )
      | inr outside ↦
          let e = if-eq_of_false b (ok (splice (s * 2) bytes d)) (err io) outside h in cc
    ]

pub small_read_lem :
    (p s n : ℕ) (d bytes d' : Bytes)
    → small_read p s n d ≡ ok (bytes, d')
    → (p ≡ 0) × (bytes ≡ take (n * 2) (drop (s * 2) d)) × (d' ≡ d)
small_read_lem p s n d bytes d' h =
    let b = fits p (s * 2 + n * 2) d in
    let found : Outcome JobError (Bytes × Bytes) = ok (take (n * 2) (drop (s * 2) d), d) in
    elim (Bool-cases b) [
      | inl inside ↦
          let e = ok_inj refl (if-eq_of_true b found (err io) inside h) in
          (
            (==_iff p 0).0 (left_of_and (p == 0) (leb (s * 2 + n * 2) (length d)) inside),
            sym (ap (λ z. z.0) e),
            sym (ap (λ z. z.1) e),
          )
      | inr outside ↦ let e = if-eq_of_false b found (err io) outside h in cc
    ]

pub view_at_zero : (p : ℕ) (d : Bytes) → p ≡ 0 → small_view d p ≡ d
view_at_zero p d h = rw h refl

pub view_elsewhere : (q : ℕ) (d d' : Bytes) → (q ≡ 0) ⊎ (small_view d' q ≡ small_view d q)
view_elsewhere zero d d' = inl refl
view_elsewhere (suc q) d d' = inr (ground arith)

unfoldable pub small_disk : IsDisk small_context
small_disk = record {
  disk = small_view;
  write_splices = λ p s n bytes d d' l h.
      let (e, f) = small_write_lem p s n bytes d d' h in
      view_at_zero p d' e ∙ f ∙ ap (λ z. splice (s * 2) bytes z) (sym (view_at_zero p d e));
  write_elsewhere = λ p s n bytes d d' q h.
      let (e, f) = small_write_lem p s n bytes d d' h in
      elim (view_elsewhere q d d') [ inl z ↦ inl (z ∙ sym e) | inr z ↦ inr z ];
  write_keeps_size = λ p s n bytes d d' h. refl;
  read_slices = λ p s n d bytes d' h.
      let (e, f, g) = small_read_lem p s n d bytes d' h in
      f ∙ ap (λ z. take (n * 2) (drop (s * 2) z)) (sym (view_at_zero p d e));
  read_keeps = λ p s n d bytes d' q h.
      let (e, f, g) = small_read_lem p s n d bytes d' h in (ap (λ z. small_view z q) g, refl);
}

pub small_write-Settles : (p s n : ℕ) (bytes d : Bytes) → Settles (small_write p s n bytes d)
small_write-Settles p s n bytes d = ground arith

-- Each read returns one byte while there is one.
abbrev pub one_by_one : ℕ → ℕ → ℕ → Option ℕ
one_by_one size position want = some (min 1 (min want (size - position)))

pub one_by_one-IsRead : (size : ℕ) → IsRead (one_by_one size) size
one_by_one-IsRead size position want n h =
    let e = some_inj refl h in (omega (arith, e), omega (arith, e), λ z. ground (arith, e))

abbrev pub blank : Bytes
blank = 9 ∷ 9 ∷ 9 ∷ 9 ∷ 9 ∷ 9 ∷ 9 ∷ 9 ∷ []

abbrev pub after_write : Bytes
after_write = 9 ∷ 9 ∷ 1 ∷ 2 ∷ 3 ∷ 0 ∷ 9 ∷ 9 ∷ []

abbrev pub three_bytes : Bytes
three_bytes = 1 ∷ 2 ∷ 3 ∷ []

abbrev pub finished : JobResult
finished = record { success = true; steps_completed = 1 }

pub blank-Fits : Fits small_disk blank partition
unfolding small_disk
blank-Fits = record { ordered = omega arith; on_disk = omega arith; addressable = omega arith }

pub after_write-Fits : Fits small_disk after_write partition
unfolding small_disk
after_write-Fits = record {
  ordered = omega arith;
  on_disk = omega arith;
  addressable = omega arith;
}
