-- ===== src/Image/Sparse/Steps.antt =====
-- qedl-image/src/sparse.rs: each chunk of a described image, expanded.
use qedl_rs.Prelude.{
  ℕ, zero, suc, ◌+◌, ◌-◌, ◌*◌, ◌/◌, ◌^◌, ◌<◌, ◌≤◌, ◌≡◌, refl, sym, ap, ◌∙◌, min, some, [], ◌∷◌,
  ◌++◌, append_assoc, append-nil, arith, inl, inr, Bool-cases, ltb, le→ltb, length, drop, replicate,
  length-append, length-replicate, lt→ltb, take_append_exact, drop_append_exact, drop-drop,
  replicate-add, ok,
}
use mathlib.Core.Path.{subst}
use qedl_rs.Prelude.Bytes.{Bytes}
use qedl_rs.Image.Sparse.Format.{fill, dont_care, Cursor, read_exact, seek_current, or_else}
use qedl_rs.Image.Sparse.Walk.{fill_loop, dont_care_loop, do_chunk}
use qedl_rs.Image.Sparse.Expand.{ExpandState, fill_chunks, extend_from_slice, expand_callback}
use qedl_rs.Image.Sparse.Encode.{
  Chunk, raw_chunk, fill_chunk, skip_chunk, crc_chunk, type_of, data_size, payload, fill_pattern,
  repeat, meaning, IsEncodable,
}

-- The bytes that are still to be read.
abbrev pub At : Cursor → Bytes → Type 0
At r bs = drop r.position r.content ≡ bs

abbrev pub advance : Cursor → ℕ → Cursor
advance r n = record { content = r.content; position = r.position + n }

pub At-advance :
    (r : Cursor) (bs rest : Bytes) → At r (bs ++ rest) → At (advance r (length bs)) rest
At-advance r bs rest h =
    drop-drop r.position (length bs) r.content
    ∙ ap (λ t. drop (length bs) t) h
    ∙ drop_append_exact bs rest

pub read_exact-At :
    (r : Cursor) (bs rest : Bytes)
    → At r (bs ++ rest)
    → read_exact r (length bs) ≡ some (bs, advance r (length bs))
unfolding read_exact
read_exact-At r bs rest h = ground (arith, h, take_append_exact bs rest, length-append bs rest)

-- The block of the callback: filling it gives the pattern.
abbrev pub IsBlock : ℕ → Bytes → Type 0
IsBlock blk_sz block =
    (a b c d : ℕ)
    → fill_chunks (a ∷ b ∷ c ∷ d ∷ []) block ≡ fill_pattern (a ∷ b ∷ c ∷ d ∷ []) blk_sz

fill_chunks-fill_chunks :
    (a b c d a' b' c' d' : ℕ) (block : Bytes)
    → fill_chunks (a ∷ b ∷ c ∷ d ∷ []) (fill_chunks (a' ∷ b' ∷ c' ∷ d' ∷ []) block)
      ≡ fill_chunks (a ∷ b ∷ c ∷ d ∷ []) block
unfolding fill_chunks
fill_chunks-fill_chunks a b c d a' b' c' d' (x ∷ y ∷ z ∷ t ∷ rest) =
    ap (λ u. a ∷ b ∷ c ∷ d ∷ u) (fill_chunks-fill_chunks a b c d a' b' c' d' rest)
fill_chunks-fill_chunks a b c d a' b' c' d' [] = refl
fill_chunks-fill_chunks a b c d a' b' c' d' (x ∷ []) = refl
fill_chunks-fill_chunks a b c d a' b' c' d' (x ∷ y ∷ []) = refl
fill_chunks-fill_chunks a b c d a' b' c' d' (x ∷ y ∷ z ∷ []) = refl

-- What fits is appended.
extend_from_slice_lem :
    (output bs : Bytes)
    → length (output ++ bs) < 2 ^ 63
    → extend_from_slice output bs ≡ ok (output ++ bs)
unfolding extend_from_slice
extend_from_slice_lem output [] h = ap ok (sym (append-nil output))
extend_from_slice_lem output (b ∷ bs) h =
    rw
      (lt→ltb (length output + length (b ∷ bs)) (2 ^ 63)
        (omega (arith, h, length-append output (b ∷ bs))))
      refl

-- What is appended first fits where all of it fits.
pub front_fits :
    (output bs cs : Bytes) → length (output ++ (bs ++ cs)) < 2 ^ 63 → length (output ++ bs) < 2 ^ 63
front_fits output bs cs h =
    omega (arith, h, length-append output (bs ++ cs), length-append bs cs, length-append output bs)

expand_callback-fill :
    (a b c d : ℕ) (s : ExpandState)
    → length (s.output ++ fill_chunks (a ∷ b ∷ c ∷ d ∷ []) s.fill_block) < 2 ^ 63
    → expand_callback fill (a ∷ b ∷ c ∷ d ∷ []) s
      ≡ ok (record {
        output = s.output ++ fill_chunks (a ∷ b ∷ c ∷ d ∷ []) s.fill_block;
        fill_block = fill_chunks (a ∷ b ∷ c ∷ d ∷ []) s.fill_block;
      })
unfolding expand_callback
expand_callback-fill a b c d s h =
    let fits = extend_from_slice_lem s.output (fill_chunks (a ∷ b ∷ c ∷ d ∷ []) s.fill_block) h in
    elim (Bool-cases (ltb (length s.fill_block) 4)) [
      | inl short ↦ rw short (rw fits refl)
      | inr long ↦ rw long (rw fits refl)
    ]

-- What a step of the walk leaves: the output grown by `bs`, and a block that fills as before.
pub record Grown (blk_sz : ℕ) (s s' : ExpandState) (bs : Bytes) : Type 0 where
  pub output_grown : s'.output ≡ s.output ++ bs
  pub block_kept : IsBlock blk_sz s'.fill_block

fill_loop-repeat :
    (a b c d blk_sz n : ℕ) (s : ExpandState)
    → IsBlock blk_sz s.fill_block
    → length (s.output ++ repeat n (fill_pattern (a ∷ b ∷ c ∷ d ∷ []) blk_sz)) < 2 ^ 63
    → (s' : ExpandState) × (fill_loop expand_callback n (a ∷ b ∷ c ∷ d ∷ []) s ≡ ok s')
      × Grown blk_sz s s' (repeat n (fill_pattern (a ∷ b ∷ c ∷ d ∷ []) blk_sz))
unfolding fill_loop
fill_loop-repeat a b c d blk_sz zero s h small =
    (s, refl, record { output_grown = sym (append-nil s.output); block_kept = h })
fill_loop-repeat a b c d blk_sz (suc n) s h small =
    let block = fill_chunks (a ∷ b ∷ c ∷ d ∷ []) s.fill_block in
    let s1 : ExpandState = record { output = s.output ++ block; fill_block = block } in
    let rest = repeat n (fill_pattern (a ∷ b ∷ c ∷ d ∷ []) blk_sz) in
    let small' : length (s.output ++ (block ++ rest)) < 2 ^ 63 =
      subst (λ z. length (s.output ++ (z ++ rest)) < 2 ^ 63) (sym (h a b c d)) small in
    let (s', e, g) =
      fill_loop-repeat a b c d blk_sz n s1
        (λ x y z t. fill_chunks-fill_chunks x y z t a b c d s.fill_block ∙ h x y z t)
        (subst (λ z. length z < 2 ^ 63) (sym (append_assoc s.output block rest)) small') in
    (
      s',
      rw (expand_callback-fill a b c d s (front_fits s.output block rest small')) e,
      record {
        output_grown =
            g.output_grown
            ∙ append_assoc s.output block rest
            ∙ ap (λ u. s.output ++ (u ++ rest)) (h a b c d);
        block_kept = g.block_kept;
      },
    )

abbrev add_zeros : ExpandState → ℕ → ExpandState
add_zeros s n = record s { output = s.output ++ replicate n 0 }

expand_callback-dont_care :
    (n : ℕ) (s : ExpandState)
    → length s.output + n < 2 ^ 63
    → expand_callback dont_care (replicate n 0) s ≡ ok (add_zeros s n)
unfolding expand_callback
expand_callback-dont_care n s h =
    rw
      (extend_from_slice_lem s.output (replicate n 0)
        (omega (arith, h, length-append s.output (replicate n 0), length-replicate {A = ℕ} n 0)))
      refl

add_none : (s : ExpandState) (k : ℕ) → k ≡ 0 → s ≡ add_zeros s k
add_none s k e = rw e (ap (λ u. record s { output = u }) (sym (append-nil s.output)))

add_zeros-add_zeros :
    (s : ExpandState) (m n : ℕ) → add_zeros (add_zeros s m) n ≡ add_zeros s (m + n)
add_zeros-add_zeros s m n =
    ap (λ u. record s { output = u })
      (append_assoc s.output (replicate m 0) (replicate n 0)
        ∙ ap (λ u. s.output ++ u) (sym (replicate-add m n 0)))

dont_care_loop-replicate :
    (fuel n blk_sz skipped : ℕ) (s : ExpandState)
    → 0 < blk_sz
    → skipped ≤ n
    → n ≤ skipped + fuel
    → length s.output + (n - skipped) < 2 ^ 63
    → dont_care_loop expand_callback fuel n blk_sz skipped s ≡ ok (add_zeros s (n - skipped))
unfolding dont_care_loop
dont_care_loop-replicate zero n blk_sz skipped s h k l m =
    rw (le→ltb skipped n (omega arith)) (ap ok (add_none s (n - skipped) (omega arith)))
dont_care_loop-replicate (suc fuel) n blk_sz skipped s h k l m = elim (Bool-cases (ltb skipped n)) [
  | inl more ↦
      let t : ℕ = min (n - skipped) blk_sz in
      rw (more, expand_callback-dont_care t s (omega arith))
        (dont_care_loop-replicate fuel n blk_sz (skipped + t) (add_zeros s t) h (ground arith)
            (ground arith)
            (ground (arith, length-append s.output (replicate t 0), length-replicate {A = ℕ} t 0))
          ∙ ap ok (add_zeros-add_zeros s t (n - (skipped + t)))
          ∙ ap (λ m. ok (add_zeros s m)) {x = t + (n - (skipped + t))} (ground arith))
  | inr done ↦ rw done (ap ok (add_none s (n - skipped) (ground arith)))
]

pub seek_current-advance :
    (r : Cursor) (k : ℕ) → r.position + k < 2 ^ 63 → seek_current r k ≡ some (advance r k)
unfolding seek_current
seek_current-advance r k h = ground arith

pub do_chunk-encode :
    (c : Chunk) (blk_sz : ℕ) (r : Cursor) (s : ExpandState) (rest : Bytes)
    → 0 < blk_sz
    → IsBlock blk_sz s.fill_block
    → IsEncodable c
    → r.position + length (payload c) < 2 ^ 63
    → At r (payload c ++ rest)
    → length (s.output ++ meaning blk_sz c) < 2 ^ 63
    → (r' : Cursor) × (s' : ExpandState) × (do_chunk expand_callback
          (type_of c)
          (data_size c)
          blk_sz
          r
          s
        ≡ ok (r', s'))
      × At r' rest
      × (r'.content ≡ r.content)
      × Grown blk_sz s s' (meaning blk_sz c)
unfolding do_chunk or_else
do_chunk-encode (raw_chunk bs) blk_sz r s rest h b f p a small = (
  advance r (length bs),
  record s { output = s.output ++ bs },
  rw (read_exact-At r bs rest a)
      (unfold expand_callback in rw (extend_from_slice_lem s.output bs small) refl),
  At-advance r bs rest a,
  refl,
  record { output_grown = refl; block_kept = b },
)
do_chunk-encode (fill_chunk w x y z n) blk_sz r s rest h b f p a small =
    let v : Bytes = w ∷ x ∷ y ∷ z ∷ [] in
    let (s', e, g) = fill_loop-repeat w x y z blk_sz n s b small in
    (
      advance r 4,
      s',
      rw (read_exact-At r v rest a) (rw (mul_div n) (rw e refl)),
      At-advance r v rest a,
      refl,
      g,
    )
  where
    mul_div : (n : ℕ) → 4 * n / 4 ≡ n
    mul_div n = omega arith
do_chunk-encode (skip_chunk n) blk_sz r s rest h b f p a small = (
  r,
  record s { output = s.output ++ replicate n 0 },
  rw
      (dont_care_loop-replicate n n blk_sz 0 s h (omega arith) (omega arith) (
        omega (arith, small, length-append s.output (replicate n 0), length-replicate {A = ℕ} n 0)))
      (ap (λ m. ok (r, add_zeros s m)) (omega arith)),
  a,
  refl,
  record { output_grown = refl; block_kept = b },
)
do_chunk-encode (crc_chunk bs) blk_sz r s rest h b f p a small = (
  advance r (length bs),
  s,
  rw (seek_current-advance r (length bs) p) refl,
  At-advance r bs rest a,
  refl,
  record { output_grown = sym (append-nil s.output); block_kept = b },
)
