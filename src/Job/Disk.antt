-- ===== src/Job/Disk.antt =====
-- What the jobs rely on of a context (qedl-job/src/context.rs): behind it is a disk, with one
-- byte string for each physical partition, and a call that
-- returns has read or written it.
use Prim.Native.Nat.{ℕ, ◌+◌, ◌-◌, ◌*◌, ◌≤◌}
use qedl_rs.Prelude.{
  ◌≡◌, refl, sym, ap, ◌∙◌, arith, [], ◌++◌, append_assoc, append-nil, length, take, drop, replicate,
  length-append, length-take, length-replicate, length-drop, take_append_exact, drop_append_exact,
  take-append-drop, drop-drop, take_all, drop_all, replicate-add, ok, le_or_gt, ◌⊎◌, inl, inr,
}
use qedl_rs.Prelude.Bytes.{Bytes}
use qedl_rs.Job.Context.{JobContext}
use qedl_rs.Job.Write.{pad}

-- `xs` with `ys` in place of what stands at `offset`.
abbrev pub splice : ℕ → Bytes → Bytes → Bytes
splice offset ys xs = take offset xs ++ ys ++ drop (offset + length ys) xs

pub record IsDisk {D : Type 0} (ctx : JobContext D) : Type 0 where
  pub disk : D → ℕ → Bytes
  pub write_splices :
      (p s n : ℕ) (bytes : Bytes) (d d' : D)
      → length bytes ≡ n * ctx.sector_size d
      → ctx.write_sectors p s n bytes d ≡ ok d'
      → disk d' p ≡ splice (s * ctx.sector_size d) bytes (disk d p)
  pub write_elsewhere :
      (p s n : ℕ) (bytes : Bytes) (d d' : D) (q : ℕ)
      → ctx.write_sectors p s n bytes d ≡ ok d'
      → (q ≡ p) ⊎ (disk d' q ≡ disk d q)
  pub write_keeps_size :
      (p s n : ℕ) (bytes : Bytes) (d d' : D)
      → ctx.write_sectors p s n bytes d ≡ ok d'
      → ctx.sector_size d' ≡ ctx.sector_size d
  pub read_slices :
      (p s n : ℕ) (d : D) (bytes : Bytes) (d' : D)
      → ctx.read_sectors p s n d ≡ ok (bytes, d')
      → bytes ≡ take (n * ctx.sector_size d) (drop (s * ctx.sector_size d) (disk d p))
  pub read_keeps :
      (p s n : ℕ) (d : D) (bytes : Bytes) (d' : D) (q : ℕ)
      → ctx.read_sectors p s n d ≡ ok (bytes, d')
      → (disk d' q ≡ disk d q) × (ctx.sector_size d' ≡ ctx.sector_size d)

pub length-splice :
    (o : ℕ) (ys xs : Bytes) → o + length ys ≤ length xs → length (splice o ys xs) ≡ length xs
length-splice o ys xs h = omega (
  arith,
  length-append (take o xs ++ ys) (drop (o + length ys) xs),
  length-append (take o xs) ys,
  length-take o xs,
  length-drop (o + length ys) xs,
)

-- Nothing put anywhere changes nothing.
pub splice-nil : (o : ℕ) (xs : Bytes) → splice o [] xs ≡ xs
splice-nil o xs =
    ap (λ w. w ++ drop (o + 0) xs) (append-nil (take o xs))
    ∙ ap (λ k. take o xs ++ drop k xs) {x = o + 0} {y = o} (omega arith)
    ∙ take-append-drop o xs

take_append_of_length : (n : ℕ) (xs ys : Bytes) → length xs ≡ n → take n (xs ++ ys) ≡ xs
take_append_of_length n xs ys h = ap (λ k. take k (xs ++ ys)) (sym h) ∙ take_append_exact xs ys

drop_append_of_length : (n : ℕ) (xs ys : Bytes) → length xs ≡ n → drop n (xs ++ ys) ≡ ys
drop_append_of_length n xs ys h = ap (λ k. drop k (xs ++ ys)) (sym h) ∙ drop_append_exact xs ys

-- What stands after `n + m` bytes does not depend on the first `n`.
drop_past : (n m : ℕ) (xs ys : Bytes) → length xs ≡ n → drop (n + m) (xs ++ ys) ≡ drop m ys
drop_past n m xs ys h =
    drop-drop n m (xs ++ ys) ∙ ap (λ z. drop m z) (drop_append_of_length n xs ys h)

-- Two writes one after the other are one.
pub splice-splice :
    (o : ℕ) (ys zs xs : Bytes)
    → o + length ys + length zs ≤ length xs
    → splice (o + length ys) zs (splice o ys xs) ≡ splice o (ys ++ zs) xs
splice-splice o ys zs xs h =
    let a = take o xs in
    let r = drop (o + length ys) xs in
    let k : length (a ++ ys) ≡ o + length ys =
      omega (arith, length-append a ys, length-take o xs) in
    let e : o + length ys + length zs ≡ o + length (ys ++ zs) =
      omega (arith, length-append ys zs) in
    ap (λ w. w ++ zs ++ drop (o + length ys + length zs) (a ++ ys ++ r))
      (take_append_of_length (o + length ys) (a ++ ys) r k)
    ∙ ap (λ w. a ++ ys ++ zs ++ w)
        (drop_past (o + length ys) (length zs) (a ++ ys) r k
          ∙ sym (drop-drop (o + length ys) (length zs) xs))
    ∙ ap (λ w. a ++ ys ++ zs ++ drop w xs) e
    ∙ ap (λ w. w ++ drop (o + length (ys ++ zs)) xs) (append_assoc a ys zs)

-- A padded string is what is in its first `a` bytes, padded, and the rest, padded.
pub pad_split :
    (a b : ℕ) (xs : Bytes)
    → length xs ≤ a + b
    → pad (a + b) xs ≡ pad a (take a xs) ++ pad b (drop a xs)
unfolding pad
pad_split a b xs h = elim (le_or_gt (length xs) a) [
  | inl short ↦
      ap (λ k. xs ++ replicate k 0) {x = a + b - length xs} {y = (a - length xs) + b} (omega arith)
      ∙ ap (λ w. xs ++ w) (replicate-add (a - length xs) b 0)
      ∙ sym (append_assoc xs (replicate (a - length xs) 0) (replicate b 0))
      ∙ ap (λ k. pad a xs ++ replicate k 0) {x = b} {y = b - 0} (omega arith)
      ∙ sym (
          ap (λ w. pad a w ++ pad b (drop a xs)) (take_all a xs short)
          ∙ ap (λ w. pad a xs ++ pad b w) (drop_all a xs short))
  | inr long ↦
      ap (λ w. w ++ replicate (a + b - length xs) 0) (sym (take-append-drop a xs))
      ∙ append_assoc (take a xs) (drop a xs) (replicate (a + b - length xs) 0)
      ∙ ap (λ k. take a xs ++ (drop a xs ++ replicate k 0)) (omega (arith, length-drop a xs))
      ∙ ap (λ w. w ++ pad b (drop a xs)) (sym (append-nil (take a xs)))
      ∙ ap (λ k. take a xs ++ replicate k 0 ++ pad b (drop a xs)) {x = 0}
          {y = a - length (take a xs)} (omega (arith, length-take a xs))
]

pub length-pad : (n : ℕ) (xs : Bytes) → length xs ≤ n → length (pad n xs) ≡ n
unfolding pad
length-pad n xs h = omega (
  arith,
  length-append xs (replicate (n - length xs) 0),
  length-replicate {A = ℕ} (n - length xs) 0,
)

pad_nil : (m : ℕ) (u : Bytes) → m ≡ 0 → length u ≤ m → pad m u ≡ []
unfolding pad
pad_nil m u e h =
    ap (λ w. w ++ replicate (m - length u) 0) (sym (take_all 0 u (omega arith)))
    ∙ ap (λ k. replicate k 0) {x = m - length u} {y = 0} (omega arith)

-- One round of a write loop and the rounds after it: what they put on the disk is one write.
write_rounds :
    (o c m : ℕ) (u x : Bytes) {y z : Bytes}
    → length u ≤ c + m
    → o + c + m ≤ length x
    → y ≡ splice o (pad c (take c u)) x
    → z ≡ splice (o + c) (pad m (drop c u)) y
    → z ≡ splice o (pad (c + m) u) x
write_rounds o c m u x {y} {z} h k e f =
    let a = pad c (take c u) in
    let b = pad m (drop c u) in
    let la : length a ≡ c = length-pad c (take c u) (omega (arith, length-take c u)) in
    let lb : length b ≡ m = length-pad m (drop c u) (omega (arith, length-drop c u)) in
    f
    ∙ ap (λ w. splice (o + c) b w) e
    ∙ ap (λ w. splice w b (splice o a x)) {x = o + c} {y = o + length a} (omega arith)
    ∙ splice-splice o a b x (omega arith)
    ∙ ap (λ w. splice o w x) (sym (pad_split c m u h))

unchanged_twice : {P : Type 0} {x y z : Bytes} → P ⊎ (y ≡ x) → P ⊎ (z ≡ y) → P ⊎ (z ≡ x)
unchanged_twice (inl e) b = inl e
unchanged_twice (inr f) (inl e) = inl e
unchanged_twice (inr f) (inr g) = inr (g ∙ f)

-- The call put `ys` at byte `o` of the physical partition `p`, and changed nothing else.
abbrev pub Wrote : {D : Type 0} {ctx : JobContext D} → IsDisk ctx → D → D → ℕ → ℕ → Bytes → Type 0
Wrote {D} {ctx} k d d' p o ys =
    (k.disk d' p ≡ splice o ys (k.disk d p))
    × ((q : ℕ) → (q ≡ p) ⊎ (k.disk d' q ≡ k.disk d q))
    × (ctx.sector_size d' ≡ ctx.sector_size d)

module _ {D : Type 0} {ctx : JobContext D} (k : IsDisk ctx) where
  pub write_sectors-Wrote :
      (p s n : ℕ) (bytes : Bytes) (d d' : D) {ss : ℕ}
      → ctx.sector_size d ≡ ss
      → length bytes ≡ n * ss
      → ctx.write_sectors p s n bytes d ≡ ok d'
      → Wrote k d d' p (s * ss) bytes
  write_sectors-Wrote p s n bytes d d' e l h = (
    k.write_splices p s n bytes d d' (l ∙ ap (λ w. n * w) (sym e)) h
        ∙ ap (λ w. splice (s * w) bytes (k.disk d p)) e,
    λ q. k.write_elsewhere p s n bytes d d' q h,
    k.write_keeps_size p s n bytes d d' h,
  )

  pub Wrote-rounds :
      (p o c m : ℕ) (u : Bytes) {d d1 d2 : D}
      → length u ≤ c + m
      → o + c + m ≤ length (k.disk d p)
      → Wrote k d d1 p o (pad c (take c u))
      → Wrote k d1 d2 p (o + c) (pad m (drop c u))
      → Wrote k d d2 p o (pad (c + m) u)
  Wrote-rounds p o c m u {d} h fits a b = (
    write_rounds o c m u (k.disk d p) h fits a.0 b.0,
    λ q. unchanged_twice (a.1 q) (b.1 q),
    b.2 ∙ a.2,
  )

  pub Wrote-none :
      (p o m : ℕ) (u : Bytes) (d : D) → m ≡ 0 → length u ≤ m → Wrote k d d p o (pad m u)
  Wrote-none p o m u d e h = (
    sym (ap (λ w. splice o w (k.disk d p)) (pad_nil m u e h) ∙ splice-nil o (k.disk d p)),
    λ q. inr refl,
    refl,
  )
