-- ===== src/Storage/Gpt/Table.antt =====
-- qedl-storage/src/gpt.rs: `GptTable` and `GptTable::parse`.
use qedl_rs.Prelude.{
  ℕ, zero, suc, ◌+◌, ◌*◌, Bool, true, false, Option, none, some, List, [], ◌∷◌, ◌++◌, ltb,
  if◌then◌else◌, length, Outcome, ok, ◌>>=◌, ◌>>◌, guard,
}
use qedl_rs.Prelude.Bytes.{Bytes, slice}
use qedl_rs.Storage.Crc.{crc32}
use qedl_rs.Storage.Gpt.Header.{
  StorageError, crc_mismatch, GptHeader, GptHeader_from_bytes, verify_header_crc,
}
use qedl_rs.Storage.Gpt.Entry.{GptEntry, GptEntry_from_bytes, is_empty}

pub record GptTable : Type 0 where
  pub primary_valid : Bool
  pub backup_valid : Bool
  pub header : Option GptHeader
  pub entries : List GptEntry
  pub physical_partition : ℕ
  pub sector_size : ℕ

unfoldable pub GptTable_new : GptTable
GptTable_new = record {
  primary_valid = false;
  backup_valid = false;
  header = none;
  entries = [];
  physical_partition = 0;
  sector_size = 512;
}

-- `if !entry.is_empty() { entries.push(entry); }`
abbrev pub push_entry : List GptEntry → GptEntry → List GptEntry
push_entry entries e = if is_empty e then entries else entries ++ e ∷ []

-- `for i in 0..num_entries`: `n` rounds are left, and `i` is the index.
unfoldable pub entries_loop :
    ℕ → ℕ → ℕ → Bytes → ℕ → List GptEntry → Outcome StorageError (List GptEntry)
entries_loop zero i entry_size entries_data lun entries = ok entries
entries_loop (suc n) i entry_size entries_data lun entries =
    let offset = i * entry_size in
    let round =
      (GptEntry_from_bytes (slice entries_data offset (offset + entry_size)) lun >>= λ entry.
      entries_loop n (i + 1) entry_size entries_data lun (push_entry entries entry)) in
    if ltb (length entries_data) (offset + entry_size) then ok entries else round

-- A wrong checksum of the entries is only logged.
unfoldable pub parse : Bytes → Bytes → ℕ → ℕ → Outcome StorageError GptTable
parse lba1_data entries_data lun sector_size = do
  header ← GptHeader_from_bytes lba1_data
  guard (verify_header_crc header lba1_data)
      (crc_mismatch true header.header_crc32 (crc32 lba1_data))
  entries ←
      entries_loop header.num_partition_entries 0 header.partition_entry_size entries_data lun []
  ok (record {
    primary_valid = true;
    backup_valid = false;
    header = some header;
    entries = entries;
    physical_partition = lun;
    sector_size = sector_size;
  })
