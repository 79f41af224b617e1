-- ===== src/Storage/Partition.antt =====
-- qedl-storage/src/partition.rs and the look-ups of gpt.rs: partitions of all logical units by name.
-- A `HashMap` is an association list without repeated keys; `to_lowercase` is a parameter.
pub mod Search
use qedl_rs.Prelude.{
  ℕ, zero, suc, ◌+◌, Bool, true, false, Option, none, some, List, [], ◌∷◌, ◌++◌, map, ◌==◌,
  if◌then◌else◌, length, get_elem?, match_option,
}
use qedl_rs.Storage.Names.{clean_name, trim, trim_by, trim_end_by, is_nul}
use qedl_rs.Storage.Gpt.Header.{bytes_eq}
use qedl_rs.Storage.Gpt.Entry.{Text, GptEntry}
use qedl_rs.Storage.Gpt.Table.{GptTable}

-- `iter().find(..)`
unfoldable pub find {ℓ} : {A : Type ℓ} → (A → Bool) → List A → Option A
find p [] = none
find p (x ∷ xs) = if p x then some x else find p xs

abbrev pub Index : Type 0
Index = List (Text × (ℕ × ℕ))

-- `HashMap::get`
unfoldable pub lookup : Text → Index → Option (ℕ × ℕ)
lookup k [] = none
lookup k ((j, v) ∷ rest) = if bytes_eq j k then some v else lookup k rest

-- `entry(key).or_insert(value)`
unfoldable pub or_insert : Text → ℕ × ℕ → Index → Index
or_insert k v index = match_option (lookup k index) (index ++ (k, v) ∷ []) (λ _. index)

pub record PartitionMap : Type 0 where
  pub tables : List GptTable
  pub name_index : Index

unfoldable pub PartitionMap_new : PartitionMap
PartitionMap_new = record { tables = []; name_index = [] }

-- The loop of `add_table`: `entry_idx` is the index of the first entry that is left.
unfoldable pub index_entries : ℕ → ℕ → List GptEntry → Index → Index
index_entries table_idx entry_idx [] index = index
index_entries table_idx entry_idx (e ∷ es) index =
    let name = clean_name e.name in
    index_entries table_idx (entry_idx + 1) es
      (if bytes_eq name [] then index else or_insert name (table_idx, entry_idx) index)

unfoldable pub add_table : PartitionMap → GptTable → PartitionMap
add_table m table = record {
  tables = m.tables ++ table ∷ [];
  name_index = index_entries (length m.tables) 0 table.entries m.name_index;
}

-- `tables.get(table_idx).and_then(|t| t.entries.get(entry_idx))`
unfoldable pub entry_at : List GptTable → ℕ × ℕ → Option GptEntry
entry_at tables (table_idx, entry_idx) =
    match_option (get_elem? tables table_idx) none (λ t. get_elem? t.entries entry_idx)

unfoldable pub all_entries_of : List GptTable → List GptEntry
all_entries_of [] = []
all_entries_of (t ∷ ts) = t.entries ++ all_entries_of ts

unfoldable pub all_entries : PartitionMap → List GptEntry
all_entries m = all_entries_of m.tables

unfoldable pub entries_for_lun_of : ℕ → List GptTable → List GptEntry
entries_for_lun_of lun [] = []
entries_for_lun_of lun (t ∷ ts) =
    let rest = entries_for_lun_of lun ts in
    if t.physical_partition == lun then t.entries ++ rest else rest

unfoldable pub entries_for_lun : PartitionMap → ℕ → List GptEntry
entries_for_lun m lun = entries_for_lun_of lun m.tables

unfoldable pub luns : PartitionMap → List ℕ
luns m = map (λ t. t.physical_partition) m.tables

unfoldable pub total_of : List GptTable → ℕ
total_of [] = 0
total_of (t ∷ ts) = length t.entries + total_of ts

unfoldable pub total_partitions : PartitionMap → ℕ
total_partitions m = total_of m.tables

module _ (to_lowercase : Text → Text) where
  -- The test of `GptTable::find_partition`.
  unfoldable pub same_name : Text → GptEntry → Bool
  same_name name e = bytes_eq (to_lowercase (clean_name e.name)) (to_lowercase (trim name))

  unfoldable pub GptTable_find_partition : GptTable → Text → Option GptEntry
  GptTable_find_partition t name = find (same_name name) t.entries

  -- The linear search over the tables.
  unfoldable pub find_in_tables : Text → List GptTable → Option GptEntry
  find_in_tables name [] = none
  find_in_tables name (t ∷ ts) =
      match_option (GptTable_find_partition t name) (find_in_tables name ts) some

  unfoldable pub find_partition : PartitionMap → Text → Option GptEntry
  find_partition m name =
      match_option (lookup name m.name_index) (find_in_tables name m.tables) (entry_at m.tables)
