-- ===== src/Storage/Gpt/Header.antt =====
-- qedl-storage/src/gpt.rs: `GptHeader`, its parser and its checksum.
use Prim.Native.Nat.{bit_xor}
use qedl_rs.Prelude.{
  ℕ, ◌+◌, Bool, true, false, ◌&&◌, ◌||◌, [], ◌∷◌, ltb, leb, ◌==◌, if◌then◌else◌, length, take,
  Outcome, ok, ◌>>◌, guard,
}
use qedl_rs.Prelude.Bytes.{Bytes, slice, le_at}
use qedl_rs.Storage.Crc.{crc32_byte}

-- b"EFI PART" and the prefix "<?xml"
abbrev pub gpt_signature : Bytes
gpt_signature = b'E' ∷ b'F' ∷ b'I' ∷ b' ' ∷ b'P' ∷ b'A' ∷ b'R' ∷ b'T' ∷ []

abbrev pub xml_prefix : Bytes
xml_prefix = b'<' ∷ b'?' ∷ b'x' ∷ b'm' ∷ b'l' ∷ []

-- What `got` says in `StorageError::InvalidSignature`.
pub data Got : Type 0 where
  too_short : ℕ → Got
  xml_response : Bytes → Got
  other_signature : Bytes → Got

pub data StorageError : Type 0 where
  invalid_signature : Got → StorageError
  crc_mismatch : Bool → ℕ → ℕ → StorageError
  invalid_entry : ℕ → StorageError

-- `==` of byte arrays
abbrev pub bytes_eq : Bytes → Bytes → Bool
bytes_eq [] [] = true
bytes_eq [] (b ∷ bs) = false
bytes_eq (a ∷ as') [] = false
bytes_eq (a ∷ as') (b ∷ bs) = a == b && bytes_eq as' bs

pub record GptHeader : Type 0 where
  pub signature : Bytes
  pub revision : ℕ
  pub header_size : ℕ
  pub header_crc32 : ℕ
  pub current_lba : ℕ
  pub backup_lba : ℕ
  pub first_usable_lba : ℕ
  pub last_usable_lba : ℕ
  pub disk_guid : Bytes
  pub partition_entry_start_lba : ℕ
  pub num_partition_entries : ℕ
  pub partition_entry_size : ℕ
  pub partition_entries_crc32 : ℕ

-- The error for a signature that is not "EFI PART".
abbrev signature_error : Bytes → StorageError
signature_error d =
    if bytes_eq (take 5 (slice d 0 8)) xml_prefix
    then invalid_signature (xml_response (take 64 d))
    else invalid_signature (other_signature (slice d 0 8))

unfoldable pub GptHeader_from_bytes : Bytes → Outcome StorageError GptHeader
GptHeader_from_bytes d = do
  guard (leb 128 (length d)) (invalid_signature (too_short (length d)))
  guard (bytes_eq (slice d 0 8) gpt_signature) (signature_error d)
  ok (record {
    signature = slice d 0 8;
    revision = le_at d 8 12;
    header_size = le_at d 12 16;
    header_crc32 = le_at d 16 20;
    current_lba = le_at d 24 32;
    backup_lba = le_at d 32 40;
    first_usable_lba = le_at d 40 48;
    last_usable_lba = le_at d 48 56;
    disk_guid = slice d 56 72;
    partition_entry_start_lba = le_at d 72 80;
    num_partition_entries = le_at d 80 84;
    partition_entry_size = le_at d 84 88;
    partition_entries_crc32 = le_at d 88 92;
  })

-- `for (i, &byte) in raw_header[..hdr_size].iter().enumerate()`
unfoldable pub header_crc_loop : ℕ → ℕ → Bytes → ℕ
header_crc_loop crc i [] = crc
header_crc_loop crc i (byte ∷ rest) =
    header_crc_loop (if leb 16 i && ltb i 20 then crc32_byte crc 0 else crc32_byte crc byte) (i + 1)
      rest

unfoldable pub verify_header_crc : GptHeader → Bytes → Bool
unfolding header_crc_loop
verify_header_crc h raw_header =
    if ltb h.header_size 92 || ltb (length raw_header) h.header_size
    then false
    else bit_xor (header_crc_loop 0xFFFFFFFF 0 (take h.header_size raw_header)) 0xFFFFFFFF
      == h.header_crc32
