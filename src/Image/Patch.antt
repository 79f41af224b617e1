-- ===== src/Image/Patch.antt =====
-- qedl-image/src/patch.rs: the entries of a patch file, and the bytes that one of them writes.
pub mod Laws
mod Tests
use qedl_rs.Prelude.{
  ℕ, ◌^◌, Bool, ◌||◌, Option, none, some, List, [], ◌∷◌, Outcome, ok, err, ◌>>=◌, ◌>>◌, in_bounds,
  leb, take, drop, match_option, if◌then◌else◌,
}
use qedl_rs.Prelude.Bytes.{Bytes, to_le_bytes}
use qedl_rs.Text.{Text, lit, starts_with}
use qedl_rs.Text.Number.{parse_radix}
use qedl_rs.Firehose.Response.{XmlEvent, start_tag, xml_error, is_tag, get_attr_u32, get_attr_u64}
use qedl_rs.Image.Tasks.{ImageError, parse_failed, get_attr_u8, push_some}

pub record PatchEntry : Type 0 where
  pub byte_offset : ℕ
  pub filename : Text
  pub physical_partition : ℕ
  pub size_in_bytes : ℕ
  pub start_sector : ℕ
  pub value : Text

abbrev or_failed : {A : Type 0} → Option A → Outcome ImageError A
or_failed none = err parse_failed
or_failed (some a) = ok a

-- The text that `resolve_value` reads a number from; `vars` looks a name up in the map.
unfoldable pub resolved : (Text → Option Text) → Text → Outcome ImageError Text
resolved vars value =
    if starts_with value (lit "NUM_DISK_SECTORS")
    then or_failed (vars (lit "NUM_DISK_SECTORS"))
    else if starts_with value (lit "LAST_PARTITION_END")
    then or_failed (vars (lit "LAST_PARTITION_END"))
    else ok value

unfoldable pub patch_number : Text → Option ℕ
patch_number text =
    if starts_with text (lit "0x") || starts_with text (lit "0X")
    then parse_radix 16 (2 ^ 64) (drop 2 text)
    else parse_radix 10 (2 ^ 64) text

-- `PatchEntry::resolve_value`; the slice of the eight bytes panics for a larger size.
unfoldable pub resolve_value : (Text → Option Text) → PatchEntry → Outcome ImageError Bytes
resolve_value vars entry = do
  text ← resolved vars entry.value
  num ← or_failed (patch_number text)
  in_bounds (leb entry.size_in_bytes 8)
  ok (take entry.size_in_bytes (to_le_bytes 8 num))

unfoldable pub parse_patch_entry : (Text → Option Text) → Option PatchEntry
parse_patch_entry attrs = match_option (get_attr_u32 attrs (lit "byte_offset")) none (λ byte_offset.
    match_option (attrs (lit "filename")) none (λ filename.
      match_option (get_attr_u8 attrs (lit "physical_partition_number")) none (λ lun.
        match_option (get_attr_u32 attrs (lit "size_in_bytes")) none (λ size_in_bytes.
          match_option (get_attr_u64 attrs (lit "start_sector")) none (λ start_sector.
            match_option (attrs (lit "value")) none (λ value. some (record {
              byte_offset = byte_offset;
              filename = filename;
              physical_partition = lun;
              size_in_bytes = size_in_bytes;
              start_sector = start_sector;
              value = value;
            })))))))

unfoldable pub patches_loop : List XmlEvent → List PatchEntry → Outcome ImageError (List PatchEntry)
patches_loop [] entries = ok entries
patches_loop (start_tag tag attrs ∷ events) entries =
    patches_loop events
      (if is_tag tag (lit "patch") then push_some entries (parse_patch_entry attrs) else entries)
patches_loop (xml_error ∷ events) entries = err parse_failed
patches_loop (event ∷ events) entries = patches_loop events entries

-- `PatchSet::from_str`, `xml_events` the reader.
unfoldable pub PatchSet_from_str :
    (Text → List XmlEvent) → Text → Outcome ImageError (List PatchEntry)
PatchSet_from_str xml_events xml = patches_loop (xml_events xml) []
