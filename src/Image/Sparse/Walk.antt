-- ===== src/Image/Sparse/Walk.antt =====
-- qedl-image/src/sparse.rs: `SparseExpander::for_each_chunk`, over the state of its callback.
use qedl_rs.Prelude.{
  ℕ, zero, suc, ◌+◌, ◌-◌, ◌/◌, min, ltb, length, replicate, Outcome, ok, hang, ◌>>=◌, if◌then◌else◌,
  match_option,
}
use qedl_rs.Prelude.Bytes.{Bytes}
use qedl_rs.Image.Sparse.Format.{
  ChunkType, raw, fill, dont_care, crc32, SparseError, read_raw_chunk, read_fill_value,
  seek_on_crc_chunk, ChunkHeader_from_bytes, Cursor, read_exact, seek_current, or_else,
  SparseExpander,
}

module _ {S : Type 0} (callback : ChunkType → Bytes → S → Outcome SparseError S) where
  -- `for _ in 0..num_blks { callback(ChunkType::Fill, &fill_buf)?; }`
  unfoldable pub fill_loop : ℕ → Bytes → S → Outcome SparseError S
  fill_loop zero fill_buf s = ok s
  fill_loop (suc n) fill_buf s = do s' ← callback fill fill_buf s; fill_loop n fill_buf s'

  -- `while skipped < skip_size`, on fuel.
  unfoldable pub dont_care_loop : ℕ → ℕ → ℕ → ℕ → S → Outcome SparseError S
  dont_care_loop zero skip_size blk_sz skipped s = if ltb skipped skip_size then hang else ok s
  dont_care_loop (suc fuel) skip_size blk_sz skipped s =
      let to_read = min (skip_size - skipped) blk_sz in
      let round =
        (callback dont_care (replicate to_read 0) s >>= λ s'.
        dont_care_loop fuel skip_size blk_sz (skipped + to_read) s') in
      if ltb skipped skip_size then round else ok s

  -- The `match chunk.chunk_type` of the loop's body.
  unfoldable pub do_chunk : ChunkType → ℕ → ℕ → Cursor → S → Outcome SparseError (Cursor × S)
  do_chunk raw chunk_data_sz blk_sz r s = do
    (data_buf, r') ← or_else read_raw_chunk (read_exact r chunk_data_sz)
    s' ← callback raw data_buf s
    ok (r', s')
  do_chunk fill chunk_data_sz blk_sz r s = do
    (fill_buf, r') ← or_else read_fill_value (read_exact r 4)
    s' ← fill_loop (chunk_data_sz / 4) fill_buf s
    ok (r', s')
  do_chunk dont_care chunk_data_sz blk_sz r s = do
    s' ← dont_care_loop chunk_data_sz chunk_data_sz blk_sz 0 s
    ok (r, s')
  do_chunk crc32 chunk_data_sz blk_sz r s = do
    r' ← or_else seek_on_crc_chunk (seek_current r chunk_data_sz)
    ok (r', s)

  -- `loop { match self.reader.read_exact(&mut hdr_buf) { .. } }`, on fuel.
  unfoldable pub chunk_loop : ℕ → ℕ → ℕ → Cursor → S → Outcome SparseError S
  chunk_loop zero chunk_hdr_sz blk_sz r s = hang
  chunk_loop (suc fuel) chunk_hdr_sz blk_sz r s =
      match_option (read_exact r chunk_hdr_sz) (ok s) λ (hdr_buf, r'). do
        chunk ← ChunkHeader_from_bytes hdr_buf
        (r'', s') ← do_chunk chunk.chunk_type chunk.chunk_data_sz blk_sz r' s
        chunk_loop fuel chunk_hdr_sz blk_sz r'' s'

  -- Each round reads twelve bytes at least, so the length of the content is enough fuel.
  unfoldable pub for_each_chunk : SparseExpander → S → Outcome SparseError S
  for_each_chunk x s =
      chunk_loop (suc (length x.reader.content)) x.header.chunk_hdr_sz x.header.blk_sz x.reader s
