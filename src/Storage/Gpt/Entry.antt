-- ===== src/Storage/Gpt/Entry.antt =====
-- qedl-storage/src/gpt.rs: `GptEntry` and the text of its name.
use qedl_rs.Prelude.{
  ℕ, ◌+◌, ◌-◌, ◌*◌, ◌/◌, ◌%◌, ◌^◌, Bool, ◌&&◌, List, [], ◌∷◌, leb, ◌==◌, if◌then◌else◌, length,
  replicate, Outcome, ok, ◌>>◌, guard,
}
use qedl_rs.Prelude.Bytes.{Bytes, slice, le_at}
use qedl_rs.Storage.Gpt.Header.{StorageError, invalid_entry, bytes_eq}

-- A `String` is the list of its code points.
abbrev pub Text : Type 0
Text = List ℕ

-- `chunks_exact(2).map(|c| u16::from_le_bytes([c[0], c[1]])).take_while(|&c| c != 0)`
unfoldable pub utf16_units : Bytes → List ℕ
utf16_units (a ∷ b ∷ rest) =
    let unit = a + 256 * b in let more = utf16_units rest in if unit == 0 then [] else unit ∷ more
utf16_units rest = []

abbrev is_high : ℕ → Bool
is_high u = leb 0xD800 u && leb u 0xDBFF

abbrev is_low : ℕ → Bool
is_low u = leb 0xDC00 u && leb u 0xDFFF

-- `String::from_utf16_lossy`: a surrogate pair is one code point, a lone surrogate is U+FFFD.
-- The first argument is a high surrogate that waits for its partner; 0 is none.
unfoldable pub utf16_text : ℕ → List ℕ → Text
utf16_text pending [] = if pending == 0 then [] else 0xFFFD ∷ []
utf16_text pending (u ∷ us) =
    let alone = if is_low u then 0xFFFD ∷ utf16_text 0 us else u ∷ utf16_text 0 us in
    let wait = utf16_text u us in
    let here = if is_high u then wait else alone in
    let pair = (0x10000 + (pending - 0xD800) * 0x400 + (u - 0xDC00)) ∷ utf16_text 0 us in
    if pending == 0 then here else if is_low u then pair else 0xFFFD ∷ here

unfoldable pub decode_utf16le : Bytes → Text
unfolding utf16_units utf16_text
decode_utf16le d = utf16_text 0 (utf16_units d)

pub record GptEntry : Type 0 where
  pub name : Text
  pub type_guid : Bytes
  pub unique_guid : Bytes
  pub first_lba : ℕ
  pub last_lba : ℕ
  pub attributes : ℕ
  pub physical_partition : ℕ

-- The fields that are read out of an entry of 128 bytes or more.
unfoldable pub entry_of : ℕ → Bytes → GptEntry
entry_of physical_partition d = record {
  name = decode_utf16le (slice d 56 128);
  type_guid = slice d 0 16;
  unique_guid = slice d 16 32;
  first_lba = le_at d 32 40;
  last_lba = le_at d 40 48;
  attributes = le_at d 48 56;
  physical_partition = physical_partition;
}

unfoldable pub GptEntry_from_bytes : Bytes → ℕ → Outcome StorageError GptEntry
GptEntry_from_bytes d physical_partition = do
  guard (leb 128 (length d)) (invalid_entry 0)
  ok (entry_of physical_partition d)

-- `(last - first + 1) * sector_size` in `u64`
unfoldable pub size_bytes : GptEntry → ℕ → ℕ
size_bytes e sector_size = ((e.last_lba + 2 ^ 64 - e.first_lba + 1) % 2 ^ 64 * sector_size) % 2 ^ 64

unfoldable pub size_kb : GptEntry → ℕ → ℕ
unfolding size_bytes
size_kb e sector_size = size_bytes e sector_size / 1024

unfoldable pub is_empty : GptEntry → Bool
is_empty e = bytes_eq e.type_guid (replicate 16 0)
