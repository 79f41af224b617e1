-- ===== src/Firehose/Command.antt =====
-- qedl-firehose/src/command.rs: the commands and their XML.
use qedl_rs.Prelude.{ℕ, Bool, Option, none, some, List, [], ◌∷◌, ◌++◌, map, length}
use qedl_rs.Prelude.Bytes.{Bytes}
use qedl_rs.Text.{Text, lit}
use qedl_rs.Text.Number.{decimal, hex_lower, hex_byte}

-- The fields that four of the commands share.
pub record Sectors : Type 0 where
  pub sector_size : ℕ
  pub num_sectors : ℕ
  pub physical_partition : ℕ
  pub start_sector : ℕ

pub record ConfigureFields : Type 0 where
  pub memory_name : Text
  pub target_name : Text
  pub skip_storage_init : Bool
  pub zlp_aware_host : Bool
  pub max_payload_size : ℕ

pub data FirehoseCommand : Type 0 where
  configure_command : ConfigureFields → FirehoseCommand
  read_command : Sectors → FirehoseCommand
  program_command : Sectors → Option Text → FirehoseCommand
  erase_command : Sectors → FirehoseCommand
  get_storage_info_command : FirehoseCommand
  get_sha256_digest_command : Sectors → FirehoseCommand
  peek_command : ℕ → ℕ → FirehoseCommand
  poke_command : ℕ → Bytes → FirehoseCommand
  power_command : Text → FirehoseCommand
  raw_xml_command : Text → FirehoseCommand

-- `hex_values.join(" ")`
abbrev pub join : List Text → Text
join [] = []
join (word ∷ []) = word
join (word ∷ more ∷ rest) = word ++ (32 ∷ join (more ∷ rest))

abbrev pub hex_values : Bytes → Text
hex_values bytes = join (map hex_byte bytes)

-- A tag with the attributes of a range of sectors, without its end.
unfoldable sectors_tag : Text → Sectors → Text
sectors_tag tag s =
    lit "<"
    ++ tag
    ++ lit " SECTOR_SIZE_IN_BYTES=\""
    ++ decimal s.sector_size
    ++ lit "\" num_partition_sectors=\""
    ++ decimal s.num_sectors
    ++ lit "\" physical_partition_number=\""
    ++ decimal s.physical_partition
    ++ lit "\" start_sector=\""
    ++ decimal s.start_sector
    ++ lit "\""

filename_attribute : Option Text → Text
filename_attribute none = []
filename_attribute (some f) = lit " filename=\"" ++ f ++ lit "\""

-- `FirehoseCommand::to_xml`
unfoldable pub to_xml : FirehoseCommand → Text
unfolding sectors_tag filename_attribute
to_xml (configure_command c) =
    lit "<configure MemoryName=\""
    ++ c.memory_name
    ++ lit "\" Verbose=\"0\" MaxPayloadSizeToTargetInBytes=\""
    ++ decimal c.max_payload_size
    ++ lit "\" />"
to_xml (read_command s) = sectors_tag (lit "read") s ++ lit " />"
to_xml (program_command s filename) =
    sectors_tag (lit "program") s ++ filename_attribute filename ++ lit " />"
to_xml (erase_command s) = sectors_tag (lit "erase") s ++ lit " />"
to_xml get_storage_info_command = lit "<getstorageinfo />"
to_xml (get_sha256_digest_command s) = sectors_tag (lit "getsha256digest") s ++ lit " />"
to_xml (peek_command address size) =
    lit "<peek address64=\""
    ++ hex_lower address
    ++ lit "\" size_in_bytes=\""
    ++ decimal size
    ++ lit "\" />"
to_xml (poke_command address bytes) =
    lit "<poke address64=\""
    ++ hex_lower address
    ++ lit "\" size_in_bytes=\""
    ++ decimal (length bytes)
    ++ lit "\" value64=\""
    ++ hex_values bytes
    ++ lit "\" />"
to_xml (power_command value) = lit "<power value=\"" ++ value ++ lit "\" />"
to_xml (raw_xml_command xml) = xml

-- `format!` in `execute_command`, `peek`
unfoldable pub xml_document : Text → Text
xml_document inner =
    lit "<?xml version=\"1.0\" encoding=\"UTF-8\" ?><data>" ++ inner ++ lit "</data>"
