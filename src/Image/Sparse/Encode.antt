-- ===== src/Image/Sparse/Encode.antt =====
-- Sparse images as qedl-image/src/sparse.rs reads them: what their chunks stand for, and how they
-- are laid out in bytes. This is the description that the expansion is compared with.
use qedl_rs.Prelude.{
  ℕ, zero, suc, ◌+◌, ◌*◌, ◌/◌, ◌%◌, ◌^◌, ◌<◌, ◌≡◌, List, [], ◌∷◌, ◌++◌, length, replicate,
}
use qedl_rs.Prelude.Bytes.{Bytes, to_le_bytes}
use qedl_rs.Image.Sparse.Format.{
  ChunkType, raw, fill, dont_care, crc32, SparseHeader, sparse_header_magic,
}

-- A fill holds four bytes and the number of blocks; the checksum chunk holds bytes to skip.
pub data Chunk : Type 0 where
  raw_chunk : Bytes → Chunk
  fill_chunk : (a b c d n : ℕ) → Chunk
  skip_chunk : ℕ → Chunk
  crc_chunk : Bytes → Chunk

abbrev pub type_of : Chunk → ChunkType
type_of (raw_chunk bs) = raw
type_of (fill_chunk a b c d n) = fill
type_of (skip_chunk n) = dont_care
type_of (crc_chunk bs) = crc32

abbrev pub type_code : ChunkType → ℕ
type_code raw = 0xCAC1
type_code fill = 0xCAC2
type_code dont_care = 0xCAC3
type_code crc32 = 0xCAC4

-- `chunk_data_sz`
abbrev pub data_size : Chunk → ℕ
data_size (raw_chunk bs) = length bs
data_size (fill_chunk a b c d n) = 4 * n
data_size (skip_chunk n) = n
data_size (crc_chunk bs) = length bs

abbrev pub payload : Chunk → Bytes
payload (raw_chunk bs) = bs
payload (fill_chunk a b c d n) = a ∷ b ∷ c ∷ d ∷ []
payload (skip_chunk n) = []
payload (crc_chunk bs) = bs

abbrev pub repeat : ℕ → Bytes → Bytes
repeat zero bs = []
repeat (suc n) bs = bs ++ repeat n bs

-- The bytes of one block of a fill: its four bytes as often as they fit whole, and zeros where fewer
-- than four are left.
abbrev pub fill_pattern : Bytes → ℕ → Bytes
fill_pattern v blk_sz = repeat (blk_sz / 4) v ++ replicate (blk_sz % 4) 0

-- What a chunk stands for in the expanded image.
abbrev pub meaning : ℕ → Chunk → Bytes
meaning blk_sz (raw_chunk bs) = bs
meaning blk_sz (fill_chunk a b c d n) = repeat n (fill_pattern (a ∷ b ∷ c ∷ d ∷ []) blk_sz)
meaning blk_sz (skip_chunk n) = replicate n 0
meaning blk_sz (crc_chunk bs) = []

abbrev pub meanings : ℕ → List Chunk → Bytes
meanings blk_sz [] = []
meanings blk_sz (c ∷ cs) = meaning blk_sz c ++ meanings blk_sz cs

-- Twelve bytes: the type, two reserved bytes, the size and the total size, which is not read.
abbrev pub chunk_header_bytes : Chunk → ℕ → Bytes
chunk_header_bytes c total =
    to_le_bytes 2 (type_code (type_of c))
    ++ (0 ∷ 0 ∷ (to_le_bytes 4 (data_size c) ++ to_le_bytes 4 total))

-- `pad` is what a chunk header holds behind its twelve bytes.
abbrev pub encode_chunk : Bytes → Chunk → Bytes
encode_chunk pad c =
    (chunk_header_bytes c (12 + length pad + length (payload c)) ++ pad) ++ payload c

abbrev pub encode_chunks : Bytes → List Chunk → Bytes
encode_chunks pad [] = []
encode_chunks pad (c ∷ cs) = encode_chunk pad c ++ encode_chunks pad cs

abbrev pub header_bytes : SparseHeader → Bytes
header_bytes h =
    to_le_bytes 4 h.magic
    ++ (to_le_bytes 2 h.major_version
        ++ (to_le_bytes 2 h.minor_version
            ++ (to_le_bytes 2 h.file_hdr_sz
                ++ (to_le_bytes 2 h.chunk_hdr_sz
                    ++ (to_le_bytes 4 h.blk_sz
                        ++ (to_le_bytes 4 h.total_blks
                            ++ (to_le_bytes 4 h.total_chunks
                                ++ to_le_bytes 4 h.image_checksum)))))))

-- The fields are in the range of their integer types, and the magic number is right.
pub record IsHeader (h : SparseHeader) : Type 0 where
  pub magic_right : h.magic ≡ sparse_header_magic
  pub major_u16 : h.major_version < 2 ^ 16
  pub minor_u16 : h.minor_version < 2 ^ 16
  pub file_hdr_u16 : h.file_hdr_sz < 2 ^ 16
  pub chunk_hdr_u16 : h.chunk_hdr_sz < 2 ^ 16
  pub blk_u32 : h.blk_sz < 2 ^ 32
  pub total_blks_u32 : h.total_blks < 2 ^ 32
  pub total_chunks_u32 : h.total_chunks < 2 ^ 32
  pub checksum_u32 : h.image_checksum < 2 ^ 32

-- The sizes fit the 32 bits of `chunk_data_sz`.
abbrev pub IsEncodable : Chunk → Type 0
IsEncodable c = data_size c < 2 ^ 32

-- The whole file: the header, what it holds behind its 28 bytes, and the chunks.
abbrev pub encode_image : SparseHeader → Bytes → Bytes → List Chunk → Bytes
encode_image h extra pad chunks = header_bytes h ++ (extra ++ encode_chunks pad chunks)

-- The header's sizes agree with the layout.
pub record IsLayout (h : SparseHeader) (extra pad : Bytes) : Type 0 where
  pub file_hdr : h.file_hdr_sz ≡ 28 + length extra
  pub chunk_hdr : h.chunk_hdr_sz ≡ 12 + length pad
