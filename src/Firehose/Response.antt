-- ===== src/Firehose/Response.antt =====
-- qedl-firehose/src/response.rs and `get_attr` of qedl-core/src/util.rs: the answers of a device,
-- from the events of the XML reader.
use qedl_rs.Prelude.{
  ℕ, Bool, true, false, ◌||◌, ◌&&◌, Option, none, some, ◌+◌, ◌%◌, ◌^◌, List, [], ◌∷◌, ◌++◌, map,
  leb, match_option, if◌then◌else◌,
}
use qedl_rs.Text.{Text, lit, text_eq}
use qedl_rs.Text.Number.{parse_radix}

pub record FirehoseConfig : Type 0 where
  pub memory_name : Option Text
  pub sector_size : Option ℕ
  pub max_payload_size : Option ℕ
  pub max_payload_size_from_target : Option ℕ
  pub max_payload_size_to_target_supported : Option ℕ
  pub max_xml_size : Option ℕ
  pub target_name : Option Text
  pub version : Option Text
  pub total_sectors : Option ℕ
  pub num_partition_sectors : Option ℕ
  pub physical_partition_number : Option ℕ

pub data ResponseValue : Type 0 where
  ack nak : ResponseValue

pub record FirehoseResponse : Type 0 where
  pub value : ResponseValue
  pub raw_mode : Bool
  pub error : Option Text
  pub logs : List Text
  pub config : FirehoseConfig

unfoldable pub is_ack : FirehoseResponse → Bool
is_ack r = elim (r.value) [ ack ↦ true | nak ↦ false ]

unfoldable pub is_nak : FirehoseResponse → Bool
is_nak r = elim (r.value) [ ack ↦ false | nak ↦ true ]

-- `FirehoseConfig::default`
abbrev pub no_config : FirehoseConfig
no_config = record {
  memory_name = none;
  sector_size = none;
  max_payload_size = none;
  max_payload_size_from_target = none;
  max_payload_size_to_target_supported = none;
  max_xml_size = none;
  target_name = none;
  version = none;
  total_sectors = none;
  num_partition_sectors = none;
  physical_partition_number = none;
}

-- What the XML reader hands out up to the end of the text: a tag with its unescaped attributes
-- (`Start` and `Empty`), the text between tags if it unescapes, an end tag, anything else, and an
-- error of the reader.
pub data XmlEvent : Type 0 where
  start_tag : Text → (Text → Option Text) → XmlEvent
  end_tag : Text → XmlEvent
  xml_text : Option Text → XmlEvent
  xml_other xml_error : XmlEvent

abbrev pub or_else : {A : Type 0} → Option A → Option A → Option A
or_else none o = o
or_else (some a) o = some a

-- `get_attr_u32` and `get_attr_u64`
unfoldable pub get_attr_u32 : (Text → Option Text) → Text → Option ℕ
get_attr_u32 attrs name = match_option (attrs name) none (parse_radix 10 (2 ^ 32))

unfoldable pub get_attr_u64 : (Text → Option Text) → Text → Option ℕ
get_attr_u64 attrs name = match_option (attrs name) none (parse_radix 10 (2 ^ 64))

-- `to_lowercase` on ASCII. No character outside it has a lower case made of the letters of the
-- tags below, so the comparisons with them come out the same.
abbrev lower : ℕ → ℕ
lower c = if leb 65 c && leb c 90 then c + 32 else c

abbrev pub is_tag : Text → Text → Bool
is_tag tag name = text_eq (map lower tag) name

abbrev as_u8 : Option ℕ → Option ℕ
as_u8 none = none
as_u8 (some v) = some (v % 2 ^ 8)

-- The attributes of any tag; all but the name of the memory keep their first value.
unfoldable pub read_config : Text → (Text → Option Text) → FirehoseConfig → FirehoseConfig
unfolding get_attr_u32 get_attr_u64
read_config tag attrs c =
    let u32 = get_attr_u32 attrs in
    let u64 = get_attr_u64 attrs in
    record {
      memory_name =
          if is_tag tag (lit "memory") || is_tag tag (lit "memoryname")
          then or_else (attrs (lit "name"))
              (or_else (attrs (lit "MemoryName")) (attrs (lit "memory")))
          else c.memory_name;
      sector_size = or_else c.sector_size (
          or_else (u32 (lit "SECTOR_SIZE_IN_BYTES"))
            (or_else (u32 (lit "sector_size")) (u32 (lit "SectorSize"))));
      max_payload_size = or_else c.max_payload_size (
          or_else (u32 (lit "MaxPayloadSizeToTargetInBytes")) (
            or_else (u32 (lit "MaxPayloadSizeToTarget"))
              (or_else (u32 (lit "max_payload_size")) (u32 (lit "MaxPayloadSize")))));
      max_payload_size_from_target =
          or_else c.max_payload_size_from_target (u32 (lit "MaxPayloadSizeFromTargetInBytes"));
      max_payload_size_to_target_supported =
          or_else c.max_payload_size_to_target_supported
            (u32 (lit "MaxPayloadSizeToTargetInBytesSupported"));
      max_xml_size = or_else c.max_xml_size (u32 (lit "MaxXMLSizeInBytes"));
      target_name = or_else c.target_name (attrs (lit "TargetName"));
      version = or_else c.version (attrs (lit "Version"));
      total_sectors = or_else c.total_sectors (
          or_else (u64 (lit "total_sectors"))
            (or_else (u64 (lit "TotalSectors")) (u64 (lit "num_partition_sectors"))));
      num_partition_sectors = or_else c.num_partition_sectors (u64 (lit "num_partition_sectors"));
      physical_partition_number = or_else c.physical_partition_number (
          as_u8 (
            or_else (u32 (lit "physical_partition_number")) (u32 (lit "PhysicalPartitionNumber"))));
    }

-- The local variables of `from_xml`.
pub record Reading : Type 0 where
  pub value : ResponseValue
  pub raw_mode : Bool
  pub error : Option Text
  pub logs : List Text
  pub config : FirehoseConfig
  pub in_log : Bool
  pub log_text : Text

abbrev pub reading : Reading
reading = record {
  value = ack;
  raw_mode = false;
  error = none;
  logs = [];
  config = no_config;
  in_log = false;
  log_text = [];
}

read_value : Option Text → ResponseValue → ResponseValue
read_value none value = value
read_value (some v) value =
    if text_eq v (lit "ACK") then ack else if text_eq v (lit "NAK") then nak else value

read_raw_mode : Option Text → Bool → Bool
read_raw_mode none raw_mode = raw_mode
read_raw_mode (some v) raw_mode = text_eq v (lit "true")

-- A log entry, the error too if there is none yet.
abbrev push_log : Reading → Option Text → Reading
push_log r none = r
push_log r (some v) = record r { logs = r.logs ++ (v ∷ []); error = or_else r.error (some v) }

read_response_tag : Text → (Text → Option Text) → Reading → Reading
unfolding read_value read_raw_mode
read_response_tag tag attrs r =
    if is_tag tag (lit "response") || is_tag tag (lit "data")
    then record r {
      value = read_value (attrs (lit "value")) r.value;
      raw_mode = read_raw_mode (attrs (lit "rawmode")) r.raw_mode;
    }
    else r

read_log_tag : Text → (Text → Option Text) → Reading → Reading
read_log_tag tag attrs r =
    if is_tag tag (lit "log")
    then push_log (record r { in_log = true; log_text = [] }) (attrs (lit "value"))
    else r

unfoldable pub on_start : Text → (Text → Option Text) → Reading → Reading
unfolding read_response_tag read_log_tag
on_start tag attrs r =
    let logged = read_log_tag tag attrs (read_response_tag tag attrs r) in
    record logged { config = read_config tag attrs logged.config }

abbrev on_text : Option Text → Reading → Reading
on_text none r = r
on_text (some t) r = if r.in_log then record r { log_text = r.log_text ++ t } else r

abbrev non_empty : Text → Option Text
non_empty [] = none
non_empty (c ∷ cs) = some (c ∷ cs)

unfoldable pub on_end : Text → Reading → Reading
on_end tag r =
    if is_tag tag (lit "log")
    then record (push_log r (if r.in_log then non_empty r.log_text else none)) {
      in_log = false;
      log_text = [];
    }
    else r

-- The loop over the events; `none` is the error of the reader.
unfoldable pub from_xml_loop : List XmlEvent → Reading → Option FirehoseResponse
from_xml_loop [] r = some (record {
  value = r.value;
  raw_mode = r.raw_mode;
  error = r.error;
  logs = r.logs;
  config = r.config;
})
from_xml_loop (start_tag tag attrs ∷ events) r = from_xml_loop events (on_start tag attrs r)
from_xml_loop (end_tag tag ∷ events) r = from_xml_loop events (on_end tag r)
from_xml_loop (xml_text t ∷ events) r = from_xml_loop events (on_text t r)
from_xml_loop (xml_other ∷ events) r = from_xml_loop events r
from_xml_loop (xml_error ∷ events) r = none

-- `FirehoseResponse::from_xml`, `xml_events` the reader.
unfoldable pub from_xml : (Text → List XmlEvent) → Text → Option FirehoseResponse
from_xml xml_events xml = from_xml_loop (xml_events xml) reading
