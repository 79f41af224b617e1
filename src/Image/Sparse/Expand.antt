-- ===== src/Image/Sparse/Expand.antt =====
-- qedl-image/src/sparse.rs: `expand_to_vec` and its callback.
use qedl_rs.Prelude.{
  min, ◌+◌, ◌^◌, [], ◌∷◌, ◌++◌, ltb, ◌==◌, ◌||◌, length, take, replicate, Outcome, ok, ◌>>=◌, ◌>>◌,
  in_bounds,
}
use qedl_rs.Prelude.Bytes.{Bytes}
use qedl_rs.Image.Sparse.Format.{ChunkType, fill, SparseError, SparseExpander_new, raw_size}
use qedl_rs.Image.Sparse.Walk.{for_each_chunk}

-- The captured variables of the callback.
pub record ExpandState : Type 0 where
  pub output : Bytes
  pub fill_block : Bytes

-- `for chunk in fill_block.chunks_exact_mut(4) { chunk.copy_from_slice(fill); }`
unfoldable pub fill_chunks : Bytes → Bytes → Bytes
fill_chunks v (a ∷ b ∷ c ∷ d ∷ rest) = v ++ fill_chunks v rest
fill_chunks v block = block

-- `output.extend_from_slice(chunk)`: a capacity above `isize::MAX` panics, and nothing is reserved for
-- an empty slice.
unfoldable pub extend_from_slice : Bytes → Bytes → Outcome SparseError Bytes
extend_from_slice output [] = ok output
extend_from_slice output (b ∷ bs) = do
  in_bounds (ltb (length output + length (b ∷ bs)) (2 ^ 63))
  ok (output ++ (b ∷ bs))

unfoldable pub expand_callback : ChunkType → Bytes → ExpandState → Outcome SparseError ExpandState
expand_callback fill chunk_data s = do
  let v = take (min 4 (length chunk_data)) chunk_data
  in_bounds (ltb (length s.fill_block) 4 || length v == 4)
  let block = fill_chunks v s.fill_block
  output ← extend_from_slice s.output block
  ok (record { output = output; fill_block = block })
expand_callback other chunk_data s = do
  output ← extend_from_slice s.output chunk_data
  ok (record s { output = output })

-- `Vec::with_capacity(expander.raw_size() as usize)` panics above `isize::MAX`.
unfoldable pub expand_to_vec : Bytes → Outcome SparseError Bytes
expand_to_vec content = do
  expander ← SparseExpander_new (record { content = content; position = 0 })
  in_bounds (ltb (raw_size expander) (2 ^ 63))
  s ←
      for_each_chunk expand_callback expander
        (record { output = []; fill_block = replicate expander.header.blk_sz 0 })
  ok s.output
