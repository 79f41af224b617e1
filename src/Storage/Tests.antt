-- ===== src/Storage/Tests.antt =====
-- A GPT of one entry, and one whose entries are too short.
use qedl_rs.Prelude.{
  ℕ, ◌^◌, ◌<◌, ◌≤◌, ◌≡◌, ◌↔◌, refl, arith, true, false, some, none, [], ◌∷◌, length, take,
  replicate, ok, err, match_option,
}
use qedl_rs.Prelude.Bytes.{Bytes, to_le_bytes}
use qedl_rs.Storage.Crc.{crc32, crc32_byte}
use qedl_rs.Storage.Gpt.Header.{
  GptHeader, gpt_signature, GptHeader_from_bytes, header_crc_loop, verify_header_crc, invalid_entry,
}
use qedl_rs.Storage.Gpt.Entry.{GptEntry, Text}
use qedl_rs.Storage.Gpt.Table.{GptTable, parse}
use qedl_rs.Storage.Gpt.Parse.{table_entries, parse_lem, parse_narrow}
use qedl_rs.Storage.Gpt.Verify.{
  zero_crc_field, verify_header_crc_iff, gpt_header_bytes, IsGptHeader,
  GptHeader_from_bytes-gpt_header_bytes,
}
use qedl_rs.Storage.Partition.{find, same_name, find_partition, all_entries}
use qedl_rs.Storage.Partition.Search.{named, map_of, find_partition-map_of}

abbrev header_of : ℕ → ℕ → ℕ → GptHeader
header_of crc count size = record {
  signature = gpt_signature;
  revision = 0x10000;
  header_size = 92;
  header_crc32 = crc;
  current_lba = 1;
  backup_lba = 100;
  first_usable_lba = 34;
  last_usable_lba = 90;
  disk_guid = to_le_bytes 16 1;
  partition_entry_start_lba = 2;
  num_partition_entries = count;
  partition_entry_size = size;
  partition_entries_crc32 = 0;
}

abbrev header : GptHeader
header = header_of 1746526314 2 128

abbrev narrow_header : GptHeader
narrow_header = header_of 1696691629 1 64

abbrev sector_of : GptHeader → Bytes
sector_of h = gpt_header_bytes h 1 (replicate 36 0)

header_of-IsGptHeader :
    (crc count size : ℕ)
    → crc < 2 ^ 32
    → count < 2 ^ 32
    → size < 2 ^ 32
    → IsGptHeader (header_of crc count size) 1
header_of-IsGptHeader crc count size h k l = record {
  signed = refl;
  guid_bytes = refl;
  revision_u32 = omega arith;
  size_u32 = omega arith;
  crc_u32 = h;
  current_u64 = omega arith;
  backup_u64 = omega arith;
  first_u64 = omega arith;
  last_u64 = omega arith;
  start_u64 = omega arith;
  count_u32 = k;
  entry_size_u32 = l;
  entries_crc_u32 = omega arith;
}

GptHeader_from_bytes-gpt_header_bytes_example :
    GptHeader_from_bytes (gpt_header_bytes header 1 (replicate 36 0)) ≡ ok header
GptHeader_from_bytes-gpt_header_bytes_example =
    GptHeader_from_bytes-gpt_header_bytes header 1 (replicate 36 0)
      (header_of-IsGptHeader 1746526314 2 128 (omega arith) (omega arith) (omega arith))
      (omega arith)

header_parses : GptHeader_from_bytes (sector_of header) ≡ ok header
header_parses =
    GptHeader_from_bytes-gpt_header_bytes header 1 (replicate 36 0)
      (header_of-IsGptHeader 1746526314 2 128 (omega arith) (omega arith) (omega arith))
      (omega arith)

narrow_parses : GptHeader_from_bytes (sector_of narrow_header) ≡ ok narrow_header
narrow_parses =
    GptHeader_from_bytes-gpt_header_bytes narrow_header 1 (replicate 36 0)
      (header_of-IsGptHeader 1696691629 1 64 (omega arith) (omega arith) (omega arith))
      (omega arith)

header_checks : verify_header_crc header (sector_of header) ≡ true
unfolding verify_header_crc header_crc_loop crc32_byte
header_checks = refl

narrow_checks : verify_header_crc narrow_header (sector_of narrow_header) ≡ true
unfolding verify_header_crc header_crc_loop crc32_byte
narrow_checks = refl

verify_header_crc_iff_example : (verify_header_crc header (sector_of header) ≡ true) ↔ (
    (92 ≤ 92)
    × (92 ≤ length (sector_of header))
    × (crc32 (zero_crc_field (take 92 (sector_of header))) ≡ 1746526314))
verify_header_crc_iff_example = verify_header_crc_iff header (sector_of header)

-- One whole record, of ones, and the start of another.
abbrev records_data : Bytes
records_data = replicate 140 1

parse_lem_example :
    parse (sector_of header) records_data 3 512
    ≡ ok (record {
      primary_valid = true;
      backup_valid = false;
      header = some header;
      entries = table_entries header 3 records_data;
      physical_partition = 3;
      sector_size = 512;
    })
parse_lem_example =
    parse_lem (sector_of header) records_data 3 512 header header_parses header_checks (omega arith)

parse_narrow_example :
    parse (sector_of narrow_header) (replicate 64 1) 0 512 ≡ err (invalid_entry 0)
parse_narrow_example =
    parse_narrow (sector_of narrow_header) (replicate 64 1) 0 512 narrow_header narrow_parses
      narrow_checks (omega arith) (omega arith) (omega arith)

abbrev boot_entry : GptEntry
boot_entry = record {
  name = b'b' ∷ b'o' ∷ b'o' ∷ b't' ∷ [];
  type_guid = replicate 16 1;
  unique_guid = replicate 16 2;
  first_lba = 64;
  last_lba = 127;
  attributes = 0;
  physical_partition = 0;
}

abbrev table : GptTable
table = record {
  primary_valid = true;
  backup_valid = false;
  header = none;
  entries = boot_entry ∷ [];
  physical_partition = 0;
  sector_size = 512;
}

abbrev same_text : Text → Text
same_text t = t

find_partition-map_of_example :
    find_partition same_text (map_of (table ∷ [])) boot_entry.name
    ≡ match_option
        (find (named boot_entry.name) (all_entries (map_of (table ∷ []))))
        (find (same_name same_text boot_entry.name) (all_entries (map_of (table ∷ []))))
        some
find_partition-map_of_example = find_partition-map_of same_text (table ∷ []) boot_entry.name
