-- ===== src/Image/Tasks.antt =====
-- qedl-image/src/rawprogram.rs: the list of tasks of a rawprogram file.
use qedl_rs.Prelude.{
  ℕ, ◌^◌, Bool, false, Option, none, some, List, [], ◌∷◌, ◌++◌, Outcome, ok, err, match_option,
  if◌then◌else◌,
}
use qedl_rs.Text.{Text, lit, text_eq}
use qedl_rs.Text.Number.{parse_radix}
use qedl_rs.Firehose.Response.{XmlEvent, start_tag, xml_error, is_tag, get_attr_u32, get_attr_u64}

pub data TaskType : Type 0 where
  program_task erase_task : TaskType

pub record TaskEntry : Type 0 where
  pub task_type : TaskType
  pub sector_size : ℕ
  pub start_sector : ℕ
  pub num_sectors : ℕ
  pub physical_partition : ℕ
  pub filename : Option Text
  pub label : Option Text
  pub sparse : Bool
  pub file_sector_offset : ℕ
  pub size_in_kb : ℕ

-- `ImageError`, as far as the two parsers return it.
pub data ImageError : Type 0 where
  parse_failed : ImageError
  file_not_found : Text → ImageError

-- `?` on an attribute that is read as a number of type `u8`.
abbrev pub get_attr_u8 : (Text → Option Text) → Text → Option ℕ
get_attr_u8 attrs name = match_option (attrs name) none (parse_radix 10 (2 ^ 8))

abbrev or_zero : Option ℕ → ℕ
or_zero none = 0
or_zero (some n) = n

-- The attributes that both kinds of task must have.
abbrev with_place : (Text → Option Text) → (ℕ → ℕ → ℕ → ℕ → TaskEntry) → Option TaskEntry
with_place attrs entry =
    match_option (get_attr_u32 attrs (lit "SECTOR_SIZE_IN_BYTES")) none (λ sector_size.
      match_option (get_attr_u64 attrs (lit "start_sector")) none (λ start_sector.
        match_option (get_attr_u64 attrs (lit "num_partition_sectors")) none (λ num_sectors.
          match_option (get_attr_u8 attrs (lit "physical_partition_number")) none
            (λ lun. some (entry sector_size start_sector num_sectors lun)))))

unfoldable pub parse_program_entry : (Text → Option Text) → Option TaskEntry
parse_program_entry attrs = with_place attrs (λ sector_size start_sector num_sectors lun. record {
  task_type = program_task;
  sector_size = sector_size;
  start_sector = start_sector;
  num_sectors = num_sectors;
  physical_partition = lun;
  filename = attrs (lit "filename");
  label = attrs (lit "label");
  sparse = match_option (attrs (lit "sparse")) false (λ s. text_eq s (lit "true"));
  file_sector_offset = or_zero (get_attr_u64 attrs (lit "file_sector_offset"));
  size_in_kb = or_zero (get_attr_u64 attrs (lit "size_in_KB"));
})

unfoldable pub parse_erase_entry : (Text → Option Text) → Option TaskEntry
parse_erase_entry attrs = with_place attrs (λ sector_size start_sector num_sectors lun. record {
  task_type = erase_task;
  sector_size = sector_size;
  start_sector = start_sector;
  num_sectors = num_sectors;
  physical_partition = lun;
  filename = none;
  label = attrs (lit "label");
  sparse = false;
  file_sector_offset = 0;
  size_in_kb = 0;
})

abbrev pub push_some : {A : Type 0} → List A → Option A → List A
push_some as' none = as'
push_some as' (some a) = as' ++ (a ∷ [])

unfoldable pub push_task : List TaskEntry → Text → (Text → Option Text) → List TaskEntry
push_task entries tag attrs =
    if is_tag tag (lit "program")
    then push_some entries (parse_program_entry attrs)
    else if is_tag tag (lit "erase")
    then push_some entries (parse_erase_entry attrs)
    else entries

unfoldable pub tasks_loop : List XmlEvent → List TaskEntry → Outcome ImageError (List TaskEntry)
tasks_loop [] entries = ok entries
tasks_loop (start_tag tag attrs ∷ events) entries = tasks_loop events (push_task entries tag attrs)
tasks_loop (xml_error ∷ events) entries = err parse_failed
tasks_loop (event ∷ events) entries = tasks_loop events entries

-- `TaskList::from_str`, `xml_events` the reader.
unfoldable pub TaskList_from_str :
    (Text → List XmlEvent) → Text → Outcome ImageError (List TaskEntry)
TaskList_from_str xml_events xml = tasks_loop (xml_events xml) []

-- `TaskList::validate_files`; `exists` tells whether the directory of the images has a file.
unfoldable pub validate_files : (Text → Bool) → List TaskEntry → Outcome ImageError (Unit {0})
validate_files exists [] = ok tt
validate_files exists (entry ∷ entries) =
    let rest = validate_files exists entries in
    match_option entry.filename rest
      (λ name. if exists name then rest else err (file_not_found name))
