-- ===== src/Image/Sparse/Tests.antt =====
-- A small sparse image: two raw bytes, a fill of two blocks and a gap of three bytes.
use qedl_rs.Prelude.{ℕ, ◌+◌, length, Outcome, ◌≡◌, refl, arith, List, [], ◌∷◌, ◌++◌, ok, hang}
use qedl_rs.Prelude.Bytes.{Bytes}
use qedl_rs.Image.Sparse.Format.{
  ChunkType, SparseError, SparseExpander, SparseHeader, SparseHeader_from_bytes,
  sparse_header_magic,
}
use qedl_rs.Image.Sparse.Walk.{dont_care_loop}
use qedl_rs.Image.Sparse.NoProgress.{dont_care_loop_hangs}
use qedl_rs.Image.Sparse.Expand.{expand_callback, expand_to_vec}
use qedl_rs.Image.Sparse.Encode.{
  Chunk, raw_chunk, fill_chunk, skip_chunk, encode_image, header_bytes, meanings, IsHeader,
  IsLayout,
}
use qedl_rs.Image.Sparse.Header.{SparseHeader_from_bytes-header_bytes}
use qedl_rs.Image.Sparse.RoundTrip.{expand_to_vec-encode_image}

abbrev header : SparseHeader
header = record {
  magic = sparse_header_magic;
  major_version = 1;
  minor_version = 0;
  file_hdr_sz = 28;
  chunk_hdr_sz = 12;
  blk_sz = 4;
  total_blks = 3;
  total_chunks = 3;
  image_checksum = 0;
}

abbrev chunks : List Chunk
chunks = raw_chunk (7 ∷ 8 ∷ []) ∷ fill_chunk 1 2 3 4 2 ∷ skip_chunk 3 ∷ []

header-IsHeader : IsHeader header
header-IsHeader = record {
  magic_right = refl;
  major_u16 = omega arith;
  minor_u16 = omega arith;
  file_hdr_u16 = omega arith;
  chunk_hdr_u16 = omega arith;
  blk_u32 = omega arith;
  total_blks_u32 = omega arith;
  total_chunks_u32 = omega arith;
  checksum_u32 = omega arith;
}

header-IsLayout : IsLayout header [] []
header-IsLayout = record { file_hdr = refl; chunk_hdr = refl }

expand_to_vec-encode_image_example :
    expand_to_vec (encode_image header [] [] chunks) ≡ ok (meanings 4 chunks)
expand_to_vec-encode_image_example =
    expand_to_vec-encode_image header [] [] chunks header-IsHeader header-IsLayout (omega arith)
      (omega arith) (omega arith) (omega arith, (omega arith, (omega arith, tt))) (omega arith)

SparseHeader_from_bytes-header_bytes_example :
    SparseHeader_from_bytes (header_bytes header ++ 5 ∷ []) ≡ ok header
SparseHeader_from_bytes-header_bytes_example =
    SparseHeader_from_bytes-header_bytes header (5 ∷ []) header-IsHeader

-- A skipped range of three bytes and a chunk that is cut short, behind the header.
abbrev cut_short : SparseExpander
cut_short = record {
  header = header;
  reader = record {
    content = 0xC3 ∷ 0xCA ∷ 0 ∷ 0 ∷ 3 ∷ 0 ∷ 0 ∷ 0 ∷ 12 ∷ 0 ∷ 0 ∷ 0 ∷ 0xC1 ∷ [];
    position = 0;
  };
}

-- A callback that counts the bytes it is given.
abbrev count : ChunkType → Bytes → ℕ → Outcome SparseError ℕ
count t bytes n = ok (n + length bytes)

dont_care_loop_hangs_example :
    dont_care_loop expand_callback 100 5 0 0 (record { output = []; fill_block = [] }) ≡ hang
dont_care_loop_hangs_example =
    dont_care_loop_hangs 100 5 (record { output = []; fill_block = [] }) (omega arith)
