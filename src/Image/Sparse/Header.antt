-- ===== src/Image/Sparse/Header.antt =====
-- qedl-image/src/sparse.rs: parsing the headers that the layout describes.
use qedl_rs.Prelude.{ℕ, ◌*◌, ◌^◌, ◌<◌, ◌≡◌, ◌++◌, arith, length, ok}
use qedl_rs.Prelude.Bytes.{Bytes, le_2, le_4}
use qedl_rs.Image.Sparse.Format.{
  SparseHeader, SparseHeader_from_bytes, ChunkHeader_from_bytes, chunk_type_or, ChunkType_from_u16,
}
use qedl_rs.Image.Sparse.Encode.{
  Chunk, raw_chunk, fill_chunk, skip_chunk, crc_chunk, type_of, data_size, chunk_header_bytes,
  header_bytes, IsHeader, IsEncodable,
}

-- `SparseHeader::from_bytes` reads back the header that was written, whatever follows it.
pub SparseHeader_from_bytes-header_bytes :
    (h : SparseHeader) (rest : Bytes)
    → IsHeader h
    → SparseHeader_from_bytes (header_bytes h ++ rest) ≡ ok h
unfolding SparseHeader_from_bytes
SparseHeader_from_bytes-header_bytes h rest v = ground (
  arith,
  le_4 h.magic,
  le_2 h.major_version,
  le_2 h.minor_version,
  le_2 h.file_hdr_sz,
  le_2 h.chunk_hdr_sz,
  le_4 h.blk_sz,
  le_4 h.total_blks,
  le_4 h.total_chunks,
  le_4 h.image_checksum,
)

-- `ChunkHeader::from_bytes` reads the type and the size of a chunk.
pub ChunkHeader_from_bytes-chunk_header_bytes :
    (c : Chunk) (total : ℕ) (rest : Bytes)
    → IsEncodable c
    → total < 2 ^ 32
    → ChunkHeader_from_bytes (chunk_header_bytes c total ++ rest)
      ≡ ok (record { chunk_type = type_of c; chunk_data_sz = data_size c; total_sz = total })
unfolding ChunkHeader_from_bytes chunk_type_or ChunkType_from_u16
ChunkHeader_from_bytes-chunk_header_bytes (raw_chunk bs) total rest h k =
    ground (arith, le_4 (length bs) h, le_4 total k)
ChunkHeader_from_bytes-chunk_header_bytes (fill_chunk a b c d n) total rest h k =
    ground (arith, le_4 (4 * n) h, le_4 total k)
ChunkHeader_from_bytes-chunk_header_bytes (skip_chunk n) total rest h k =
    ground (arith, le_4 (n) h, le_4 total k)
ChunkHeader_from_bytes-chunk_header_bytes (crc_chunk bs) total rest h k =
    ground (arith, le_4 (length bs) h, le_4 total k)
