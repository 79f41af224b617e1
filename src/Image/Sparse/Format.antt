-- ===== src/Image/Sparse/Format.antt =====
-- qedl-image/src/sparse.rs: the headers of a sparse image and the walk over its chunks.
use qedl_rs.Prelude.{
  ℕ, ◌+◌, ◌-◌, ◌*◌, ◌%◌, ◌^◌, Bool, false, Option, none, some, ltb, leb, ◌==◌, if◌then◌else◌,
  length, take, drop, Outcome, ok, err, ◌>>=◌, ◌>>◌, guard,
}
use qedl_rs.Prelude.Bytes.{Bytes, le_at}

-- `SPARSE_HEADER_MAGIC`
abbrev pub sparse_header_magic : ℕ
sparse_header_magic = 0xED26FF3A

pub data ChunkType : Type 0 where
  raw fill dont_care crc32 : ChunkType

unfoldable pub ChunkType_from_u16 : ℕ → Option ChunkType
ChunkType_from_u16 v =
    if v == 0xCAC1
    then some raw
    else if v == 0xCAC2
    then some fill
    else if v == 0xCAC3
    then some dont_care
    else if v == 0xCAC4
    then some crc32
    else none

-- The texts of `ImageError::SparseFailed { reason }`.
pub data SparseError : Type 0 where
  read_sparse_header header_too_short : SparseError
  invalid_magic : ℕ → SparseError
  seek_error chunk_header_too_short : SparseError
  unknown_chunk_type : ℕ → SparseError
  read_raw_chunk read_fill_value seek_on_crc_chunk : SparseError

pub record SparseHeader : Type 0 where
  pub magic : ℕ
  pub major_version : ℕ
  pub minor_version : ℕ
  pub file_hdr_sz : ℕ
  pub chunk_hdr_sz : ℕ
  pub blk_sz : ℕ
  pub total_blks : ℕ
  pub total_chunks : ℕ
  pub image_checksum : ℕ

-- `SparseHeader::SIZE` and `ChunkHeader::SIZE`
abbrev pub sparse_header_size : ℕ
sparse_header_size = 28

abbrev pub chunk_header_size : ℕ
chunk_header_size = 12

unfoldable pub SparseHeader_from_bytes : Bytes → Outcome SparseError SparseHeader
SparseHeader_from_bytes d = do
  guard (leb sparse_header_size (length d)) header_too_short
  guard (le_at d 0 4 == sparse_header_magic) (invalid_magic (le_at d 0 4))
  ok (record {
    magic = le_at d 0 4;
    major_version = le_at d 4 6;
    minor_version = le_at d 6 8;
    file_hdr_sz = le_at d 8 10;
    chunk_hdr_sz = le_at d 10 12;
    blk_sz = le_at d 12 16;
    total_blks = le_at d 16 20;
    total_chunks = le_at d 20 24;
    image_checksum = le_at d 24 28;
  })

unfoldable pub is_sparse : Bytes → Bool
is_sparse d = if ltb (length d) 4 then false else le_at d 0 4 == sparse_header_magic

pub record ChunkHeader : Type 0 where
  pub chunk_type : ChunkType
  pub chunk_data_sz : ℕ
  pub total_sz : ℕ

-- `ok_or_else` on the chunk type.
unfoldable pub chunk_type_or : ℕ → Option ChunkType → Outcome SparseError ChunkType
chunk_type_or v none = err (unknown_chunk_type v)
chunk_type_or v (some t) = ok t

unfoldable pub ChunkHeader_from_bytes : Bytes → Outcome SparseError ChunkHeader
ChunkHeader_from_bytes d = do
  guard (leb chunk_header_size (length d)) chunk_header_too_short
  t ← chunk_type_or (le_at d 0 2) (ChunkType_from_u16 (le_at d 0 2))
  ok (record { chunk_type = t; chunk_data_sz = le_at d 4 8; total_sz = le_at d 8 12 })

-- `std::io::Cursor<&[u8]>`
pub record Cursor : Type 0 where
  pub content : Bytes
  pub position : ℕ

-- `read_exact` into a buffer of `n` bytes; `none` is `UnexpectedEof`.
unfoldable pub read_exact : Cursor → ℕ → Option (Bytes × Cursor)
read_exact c n =
    let rest = drop c.position c.content in
    if leb n (length rest) then some (take n rest, record c { position = c.position + n }) else none

-- `seek(SeekFrom::Current(k as i64))`, `k` the 64-bit pattern; `none` is an error.
unfoldable pub seek_current : Cursor → ℕ → Option Cursor
seek_current c k =
    if ltb k (2 ^ 63)
    then (if ltb (c.position + k) (2 ^ 64)
        then some (record c { position = c.position + k })
        else none)
    else (if leb (2 ^ 64 - k) c.position
        then some (record c { position = c.position - (2 ^ 64 - k) })
        else none)

unfoldable pub or_else {ℓ} : {A : Type ℓ} → SparseError → Option A → Outcome SparseError A
or_else e none = err e
or_else e (some a) = ok a

pub record SparseExpander : Type 0 where
  pub reader : Cursor
  pub header : SparseHeader

-- `extra > 0` guards the seek; the subtraction is that of `usize`.
unfoldable pub skip_extra : Cursor → ℕ → Outcome SparseError Cursor
skip_extra c extra = if ltb 0 extra then or_else seek_error (seek_current c extra) else ok c

unfoldable pub SparseExpander_new : Cursor → Outcome SparseError SparseExpander
SparseExpander_new r = do
  (hdr_buf, r') ← or_else read_sparse_header (read_exact r sparse_header_size)
  header ← SparseHeader_from_bytes hdr_buf
  let extra = (header.file_hdr_sz + 2 ^ 64 - sparse_header_size) % 2 ^ 64
  r'' ← skip_extra r' extra
  ok (record { reader = r''; header = header })

unfoldable pub raw_size : SparseExpander → ℕ
raw_size x = (x.header.total_blks * x.header.blk_sz) % 2 ^ 64
