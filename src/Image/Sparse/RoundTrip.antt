-- ===== src/Image/Sparse/RoundTrip.antt =====
-- qedl-image/src/sparse.rs: expanding a described image.
use qedl_rs.Prelude.{
  ℕ, zero, suc, ◌+◌, ◌*◌, ◌-◌, ◌/◌, ◌%◌, ◌^◌, ◌<◌, ◌≤◌, ◌≡◌, refl, sym, ap, ◌∙◌, some, List, [],
  ◌∷◌, ◌++◌, append_assoc, append-nil, arith, true, ltb, lt→ltb, le→leb_false, length, replicate,
  All, length-append, length-drop, ok,
}
use mathlib.Core.Path.{subst}
use qedl_rs.Prelude.Bytes.{Bytes}
use qedl_rs.Image.Sparse.Format.{
  SparseHeader, Cursor, read_exact, or_else, skip_extra, SparseExpander_new, raw_size,
}
use qedl_rs.Image.Sparse.Walk.{chunk_loop, for_each_chunk}
use qedl_rs.Image.Sparse.Expand.{fill_chunks, ExpandState, expand_callback, expand_to_vec}
use qedl_rs.Image.Sparse.Steps.{
  At, advance, At-advance, read_exact-At, seek_current-advance, IsBlock, front_fits, Grown,
  do_chunk-encode,
}
use qedl_rs.Image.Sparse.Header.{
  SparseHeader_from_bytes-header_bytes, ChunkHeader_from_bytes-chunk_header_bytes,
}
use qedl_rs.Image.Sparse.Encode.{
  Chunk, payload, repeat, meaning, meanings, chunk_header_bytes, encode_chunk, encode_chunks,
  header_bytes, IsHeader, IsEncodable, encode_image, IsLayout,
}

-- The end of the walk: no header is left.
chunk_loop_end :
    (fuel chunk_hdr_sz blk_sz : ℕ) (r : Cursor) (s : ExpandState)
    → At r []
    → 0 < chunk_hdr_sz
    → chunk_loop expand_callback (suc fuel) chunk_hdr_sz blk_sz r s ≡ ok s
unfolding chunk_loop read_exact
chunk_loop_end fuel chunk_hdr_sz blk_sz r s a h = rw (a, le→leb_false chunk_hdr_sz 0 h) refl

length-chunk_header :
    (c : Chunk) (total : ℕ) (pad : Bytes)
    → length (chunk_header_bytes c total ++ pad) ≡ 12 + length pad
length-chunk_header c total pad = omega arith

module _ (pad : Bytes) (blk_sz : ℕ) (positive : 0 < blk_sz) where
  chunk_loop-encode :
      (chunks : List Chunk) (fuel : ℕ) (r : Cursor) (s : ExpandState)
      → IsBlock blk_sz s.fill_block
      → All IsEncodable chunks
      → length pad < 2 ^ 16
      → length r.content < 2 ^ 32
      → length chunks < fuel
      → At r (encode_chunks pad chunks)
      → length (s.output ++ meanings blk_sz chunks) < 2 ^ 63
      → (s' : ExpandState) × (chunk_loop expand_callback fuel (12 + length pad) blk_sz r s ≡ ok s')
        × Grown blk_sz s s' (meanings blk_sz chunks)
  unfolding chunk_loop
  chunk_loop-encode chunks zero r s b f g m l a small = elim l [ ]
  chunk_loop-encode [] (suc fuel) r s b f g m l a small = (
    s,
    chunk_loop_end fuel (12 + length pad) blk_sz r s a (omega arith),
    record { output_grown = sym (append-nil s.output); block_kept = b },
  )
  chunk_loop-encode (c ∷ chunks) (suc fuel) r s b f g m l a small =
      let total : ℕ = 12 + length pad + length (payload c) in
      let hdr = chunk_header_bytes c total ++ pad in
      let more = encode_chunks pad chunks in
      let a1 : At r (hdr ++ (payload c ++ more)) = a ∙ append_assoc hdr (payload c) more in
      let n : length hdr ≡ 12 + length pad = length-chunk_header c total pad in
      let size : length r.content - r.position ≡ length hdr + (length (payload c) + length more) =
        sym (length-drop r.position r.content)
        ∙ ap length a1
        ∙ length-append hdr (payload c ++ more)
        ∙ ap (λ k. length hdr + k) (length-append (payload c) more) in
      let read : read_exact r (12 + length pad) ≡ some (hdr, advance r (length hdr)) =
        ap (λ k. read_exact r k) (sym n) ∙ read_exact-At r hdr (payload c ++ more) a1 in
      let (r2, s1, e, a2, same, grown) =
        do_chunk-encode c blk_sz (advance r (length hdr)) s more positive b f.0 (omega arith)
          (At-advance r hdr (payload c ++ more) a1)
          (front_fits s.output (meaning blk_sz c) (meanings blk_sz chunks) small) in
      let whole : s.output ++ (meaning blk_sz c ++ meanings blk_sz chunks)
          ≡ s1.output ++ meanings blk_sz chunks =
        sym (append_assoc s.output (meaning blk_sz c) (meanings blk_sz chunks))
        ∙ ap (λ u. u ++ meanings blk_sz chunks) (sym grown.output_grown) in
      let (s', e', grown') =
        chunk_loop-encode chunks fuel r2 s1 grown.block_kept f.1 g (rw same m) (omega arith) a2
          (subst (λ z. length z < 2 ^ 63) whole small) in
      let parsed = ChunkHeader_from_bytes-chunk_header_bytes c total pad f.0 (omega arith) in
      (
        s',
        rw read (rw parsed (rw e e')),
        record {
          output_grown =
              grown'.output_grown
              ∙ ap (λ u. u ++ meanings blk_sz chunks) grown.output_grown
              ∙ append_assoc s.output (meaning blk_sz c) (meanings blk_sz chunks);
          block_kept = grown'.block_kept;
        },
      )

skip_extra_lem :
    (r : Cursor) (extra rest : Bytes)
    → r.position + length extra < 2 ^ 63
    → At r (extra ++ rest)
    → (r' : Cursor) × (skip_extra r (length extra) ≡ ok r') × (r'.content ≡ r.content) × At r' rest
unfolding skip_extra or_else
skip_extra_lem r [] rest h a = (r, refl, refl, a)
skip_extra_lem r (x ∷ xs) rest h a = (
  advance r (length (x ∷ xs)),
  rw (seek_current-advance r (length (x ∷ xs)) h) (ground arith),
  refl,
  At-advance r (x ∷ xs) rest a,
)

SparseExpander_new-encode_image :
    (h : SparseHeader) (extra rest : Bytes)
    → IsHeader h
    → h.file_hdr_sz ≡ 28 + length extra
    → (r : Cursor) × (SparseExpander_new
          (record { content = header_bytes h ++ (extra ++ rest); position = 0 })
        ≡ ok (record { reader = r; header = h }))
      × (r.content ≡ header_bytes h ++ (extra ++ rest))
      × At r rest
unfolding SparseExpander_new or_else
SparseExpander_new-encode_image h extra rest v e =
    let start : Cursor = record { content = header_bytes h ++ (extra ++ rest); position = 0 } in
    let k : (h.file_hdr_sz + 2 ^ 64 - 28) % 2 ^ 64 ≡ length extra = omega (arith, v.file_hdr_u16) in
    let (r, seek, same, a) =
      skip_extra_lem (advance start 28) extra rest (omega (arith, v.file_hdr_u16))
        (At-advance start (header_bytes h) (extra ++ rest) refl) in
    (
      r,
      rw (read_exact-At start (header_bytes h) (extra ++ rest) refl) (
          rw (SparseHeader_from_bytes-header_bytes h [] v)
            (rw (ap (λ j. skip_extra (advance start 28) j) k ∙ seek) refl)),
      same,
      a,
    )

-- Fewer than four bytes are not filled.
fill_chunks_rest : (v : Bytes) (r : ℕ) → r < 4 → fill_chunks v (replicate r 0) ≡ replicate r 0
unfolding fill_chunks
fill_chunks_rest v zero h = refl
fill_chunks_rest v (suc zero) h = refl
fill_chunks_rest v (suc (suc zero)) h = refl
fill_chunks_rest v (suc (suc (suc zero))) h = refl
fill_chunks_rest v (suc (suc (suc (suc r)))) h = absurd (omega (arith, h))

fill_chunks-replicate :
    (a b c d q r : ℕ)
    → r < 4
    → fill_chunks (a ∷ b ∷ c ∷ d ∷ []) (replicate (4 * q + r) 0)
      ≡ repeat q (a ∷ b ∷ c ∷ d ∷ []) ++ replicate r 0
unfolding fill_chunks
fill_chunks-replicate a b c d zero r h =
    ap (λ n. fill_chunks (a ∷ b ∷ c ∷ d ∷ []) (replicate n 0)) {x = 4 * 0 + r} {y = r} (omega arith)
    ∙ fill_chunks_rest (a ∷ b ∷ c ∷ d ∷ []) r h
fill_chunks-replicate a b c d (suc q) r h =
    ap (λ n. fill_chunks (a ∷ b ∷ c ∷ d ∷ []) (replicate n 0)) {x = 4 * suc q + r}
      {y = suc (suc (suc (suc (4 * q + r))))} (omega arith)
    ∙ ap (λ z. a ∷ b ∷ c ∷ d ∷ z) (fill_chunks-replicate a b c d q r h)

IsBlock-replicate : (blk_sz : ℕ) → IsBlock blk_sz (replicate blk_sz 0)
IsBlock-replicate blk_sz a b c d =
    ap (λ n. fill_chunks (a ∷ b ∷ c ∷ d ∷ []) (replicate n 0)) {x = blk_sz}
      {y = 4 * (blk_sz / 4) + blk_sz % 4} (omega arith)
    ∙ fill_chunks-replicate a b c d (blk_sz / 4) (blk_sz % 4) (omega arith)

length-encode_chunks :
    (pad : Bytes) (chunks : List Chunk) → length chunks ≤ length (encode_chunks pad chunks)
length-encode_chunks pad [] = omega arith
length-encode_chunks pad (c ∷ chunks) = omega (
  arith,
  length-append (encode_chunk pad c) (encode_chunks pad chunks),
  length-encode_chunks pad chunks,
)

-- Expanding a described image gives what its chunks stand for, one after the other: raw bytes as
-- they are, a fill as that many blocks of its pattern, a skipped range as zeros, a checksum as
-- nothing. The block size is positive, the sizes fit their fields, the header's blocks and the
-- expansion are below 2 ^ 63 bytes, and the file is below 4 GiB. The layout is the one that the code
-- reads: the size in a chunk header counts bytes, where that of Android's format counts blocks.
pub expand_to_vec-encode_image :
    (h : SparseHeader) (extra pad : Bytes) (chunks : List Chunk)
    → IsHeader h
    → IsLayout h extra pad
    → 0 < h.blk_sz
    → h.total_blks * h.blk_sz < 2 ^ 63
    → length (meanings h.blk_sz chunks) < 2 ^ 63
    → All IsEncodable chunks
    → length (encode_image h extra pad chunks) < 2 ^ 32
    → expand_to_vec (encode_image h extra pad chunks) ≡ ok (meanings h.blk_sz chunks)
unfolding expand_to_vec for_each_chunk raw_size
expand_to_vec-encode_image h extra pad chunks v w p q small f m =
    let (r, e, same, a) =
      SparseExpander_new-encode_image h extra (encode_chunks pad chunks) v w.file_hdr in
    let s : ExpandState = record { output = []; fill_block = replicate h.blk_sz 0 } in
    let fuel = suc (length r.content) in
    let enough : length chunks < fuel = omega (
      arith,
      length-encode_chunks pad chunks,
      ap length same,
      length-append extra (encode_chunks pad chunks),
    ) in
    let (s', e', g) =
      chunk_loop-encode pad h.blk_sz p chunks fuel r s (IsBlock-replicate h.blk_sz) f
        (omega (arith, w.chunk_hdr, v.chunk_hdr_u16)) (rw same m) enough a small in
    let cap : ltb ((h.total_blks * h.blk_sz) % 2 ^ 64) (2 ^ 63) ≡ true =
      lt→ltb _ (2 ^ 63) (omega arith) in
    rw e (rw cap (rw w.chunk_hdr (rw e' (ap ok g.output_grown))))
