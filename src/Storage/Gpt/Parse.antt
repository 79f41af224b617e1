-- ===== src/Storage/Gpt/Parse.antt =====
-- qedl-storage/src/gpt.rs: what `GptTable::parse` returns, against a description of the layout.
use qedl_rs.Prelude.{
  ℕ, zero, suc, ◌+◌, ◌-◌, ◌*◌, ◌<◌, ◌≤◌, ◌≡◌, refl, sym, ap, ◌∙◌, inl, inr, true, false, some, List,
  [], ◌∷◌, ◌++◌, map, append_assoc, append-nil, arith, ltb, if◌then◌else◌, Bool-cases, length, take,
  drop, length-drop, length-take, drop-drop, ok, err,
}
use qedl_rs.Prelude.Bytes.{Bytes, slice}
use qedl_rs.Storage.Gpt.Header.{invalid_entry, GptHeader, GptHeader_from_bytes, verify_header_crc}
use qedl_rs.Storage.Gpt.Entry.{GptEntry, entry_of, GptEntry_from_bytes, is_empty}
use qedl_rs.Storage.Gpt.Table.{push_entry, entries_loop, parse}

-- The whole records at the front of a byte string, `n` at most.
abbrev pub records : ℕ → ℕ → Bytes → List Bytes
records zero size d = []
records (suc n) size d =
    if ltb (length d) size then [] else take size d ∷ records n size (drop size d)

-- The entries that are in use.
abbrev pub in_use : List GptEntry → List GptEntry
in_use [] = []
in_use (e ∷ es) = if is_empty e then in_use es else e ∷ in_use es

abbrev pub table_entries : GptHeader → ℕ → Bytes → List GptEntry
table_entries h lun d =
    in_use (map (entry_of lun) (records h.num_partition_entries h.partition_entry_size d))

GptEntry_from_bytes-entry_of :
    (d : Bytes) (lun : ℕ) → 128 ≤ length d → GptEntry_from_bytes d lun ≡ ok (entry_of lun d)
unfolding GptEntry_from_bytes
GptEntry_from_bytes-entry_of d lun h = ground arith

push_entry-in_use :
    (acc : List GptEntry) (e : GptEntry) (es : List GptEntry)
    → push_entry acc e ++ in_use es ≡ acc ++ in_use (e ∷ es)
push_entry-in_use acc e es = elim (Bool-cases (is_empty e)) [
  | inl empty ↦ rw empty refl
  | inr used ↦ rw used (append_assoc acc (e ∷ []) (in_use es))
]

slice_at : (d : Bytes) (a n : ℕ) → slice d a (a + n) ≡ take n (drop a d)
slice_at d a n = ap (λ k. take k (drop a d)) (omega arith)

next_offset : (i n : ℕ) (d : Bytes) → drop ((i + 1) * n) d ≡ drop n (drop (i * n) d)
next_offset i n d = ap (λ k. drop k d) {y = i * n + n} (omega arith) ∙ drop-drop (i * n) n d

module _ (size lun : ℕ) (d : Bytes) (wide : 128 ≤ size) where
  entries_loop-records :
      (n i : ℕ) (acc : List GptEntry)
      → entries_loop n i size d lun acc
        ≡ ok (acc ++ in_use (map (entry_of lun) (records n size (drop (i * size) d))))
  unfolding entries_loop
  entries_loop-records zero i acc = ap ok (sym (append-nil acc))
  entries_loop-records (suc n) i acc =
      let rest = drop (i * size) d in
      let left : length rest ≡ length d - i * size = length-drop (i * size) d in
      elim (Bool-cases (ltb (length rest) size)) [
        | inl short ↦
            let s : ltb (length d) (i * size + size) ≡ true = ground arith in
            rw s (rw short (ap ok (sym (append-nil acc))))
        | inr whole ↦
            let s : ltb (length d) (i * size + size) ≡ false = ground arith in
            rw s (
              rw whole (
                rw (slice_at d (i * size) size) (
                  rw
                    (GptEntry_from_bytes-entry_of (take size rest) lun
                      (ground (arith, length-take size rest)))
                    (entries_loop-records n (i + 1) (push_entry acc (entry_of lun (take size rest)))
                      ∙ ap
                          (λ t. ok (
                            push_entry acc (entry_of lun (take size rest))
                            ++ in_use (map (entry_of lun) (records n size t))))
                          (next_offset i size d)
                      ∙ ap ok (
                          push_entry-in_use acc (entry_of lun (take size rest))
                            (map (entry_of lun) (records n size (drop size rest))))))))
      ]

  entries_loop-start :
      (n : ℕ) → entries_loop n 0 size d lun [] ≡ ok (in_use (map (entry_of lun) (records n size d)))
  entries_loop-start n =
      entries_loop-records n 0 []
      ∙ ap (λ k. ok (in_use (map (entry_of lun) (records n size (drop k d))))) {y = 0} (omega arith)

entries_loop-narrow :
    (size lun : ℕ) (d : Bytes)
    → size < 128
    → (n : ℕ) → 0 < n
    → size ≤ length d
    → entries_loop n 0 size d lun [] ≡ err (invalid_entry 0)
unfolding entries_loop GptEntry_from_bytes
entries_loop-narrow size lun d w zero n l = elim n [ ]
entries_loop-narrow size lun d w (suc n) m l =
    ground (arith, length-take (0 * size + size - 0 * size) (drop (0 * size) d))

-- When the header parses, its checksum is right and its entries are 128 bytes or longer, `parse`
-- returns the header and exactly the entries in use among the whole records of the data, as many
-- as the header names, in their order, with the partition number and sector size it was given.
pub parse_lem :
    (lba1_data entries_data : Bytes) (lun sector_size : ℕ) (h : GptHeader)
    → GptHeader_from_bytes lba1_data ≡ ok h
    → verify_header_crc h lba1_data ≡ true
    → 128 ≤ h.partition_entry_size
    → parse lba1_data entries_data lun sector_size
      ≡ ok (record {
        primary_valid = true;
        backup_valid = false;
        header = some h;
        entries = table_entries h lun entries_data;
        physical_partition = lun;
        sector_size = sector_size;
      })
unfolding parse
parse_lem lba1_data entries_data lun sector_size h p v w = rw p (
    rw v (
      rw (entries_loop-start h.partition_entry_size lun entries_data w h.num_partition_entries)
        refl))

-- When the header parses, its checksum is right, and it names at least one entry, of fewer than 128
-- bytes, that the data holds whole, `parse` fails with `InvalidEntry`.
pub parse_narrow :
    (lba1_data entries_data : Bytes) (lun sector_size : ℕ) (h : GptHeader)
    → GptHeader_from_bytes lba1_data ≡ ok h
    → verify_header_crc h lba1_data ≡ true
    → 0 < h.num_partition_entries
    → h.partition_entry_size < 128
    → h.partition_entry_size ≤ length entries_data
    → parse lba1_data entries_data lun sector_size ≡ err (invalid_entry 0)
unfolding parse
parse_narrow lba1_data entries_data lun sector_size h p v n w l = rw p (
    rw v (
      rw (entries_loop-narrow h.partition_entry_size lun entries_data w h.num_partition_entries n l)
        refl))
