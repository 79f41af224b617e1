-- ===== src/Firehose/Client/Calls.antt =====
-- qedl-firehose/src/client.rs: a command and its answer, `configure` and the calls that are one
-- command.
use qedl_rs.Prelude.{
  ℕ, ◌+◌, Bool, true, false, ◌&&◌, ◌||◌, Option, none, some, List, [], ◌∷◌, leb, ◌==◌, length, drop,
  Outcome, ok, err, panic, hang, match_option, if◌then◌else◌,
}
use qedl_rs.Prelude.Bytes.{Bytes}
use qedl_rs.Text.{Text, lit, find}
use qedl_rs.Transport.Port.{Act, ◌>>=◌, ◌>>◌, ret, fail, IoError, Transport}
use qedl_rs.Firehose.Command.{
  FirehoseCommand, configure_command, erase_command, get_storage_info_command,
  get_sha256_digest_command, poke_command, power_command, raw_xml_command, Sectors, to_xml,
  xml_document,
}
use qedl_rs.Firehose.Response.{FirehoseResponse, FirehoseConfig, is_ack, XmlEvent, from_xml}
use qedl_rs.Firehose.Client.{
  FirehoseError, configure_failed, invalid_response, nak, FirehoseClient, Link, io, read_response,
}

-- A call whose error is dropped by `let _ =`.
abbrev pub dropped : Outcome IoError (Unit {0}) → Outcome IoError (Unit {0})
dropped (ok a) = ok tt
dropped (err e) = ok tt
dropped panic = panic
dropped hang = hang

abbrev pub some_or : {A : Type 0} → Option A → A → A
some_or none a = a
some_or (some b) a = b

abbrev pub some_or_old : {A : Type 0} → Option A → Option A → Option A
some_or_old none o = o
some_or_old (some a) o = some a

-- The fields that the answer to `configure` names replace those of the client.
unfoldable pub configured : FirehoseConfig → FirehoseClient → FirehoseClient
configured c f = record f {
  memory_name = some_or c.memory_name f.memory_name;
  sector_size = some_or c.sector_size f.sector_size;
  max_payload_size = some_or c.max_payload_size f.max_payload_size;
  max_payload_size_from_target =
      some_or_old c.max_payload_size_from_target f.max_payload_size_from_target;
  max_payload_size_to_target_supported =
      some_or_old c.max_payload_size_to_target_supported f.max_payload_size_to_target_supported;
  max_xml_size = some_or_old c.max_xml_size f.max_xml_size;
  target_name = some_or c.target_name f.target_name;
  version = some_or_old c.version f.version;
  total_sectors = some_or c.total_sectors f.total_sectors;
  initialized = true;
}

-- `update_from_storage_info`
unfoldable pub update_from_storage_info : Option ℕ → Option ℕ → FirehoseClient → FirehoseClient
update_from_storage_info sector_size total_sectors f = record f {
  sector_size = some_or sector_size f.sector_size;
  total_sectors = some_or total_sectors f.total_sectors;
}

-- `char::is_ascii_hexdigit`
abbrev is_hexdigit : ℕ → Bool
is_hexdigit c = (leb 48 c && leb c 57) || ((leb 65 c && leb c 70) || (leb 97 c && leb c 102))

abbrev all_hexdigits : Text → Bool
all_hexdigits [] = true
all_hexdigits (c ∷ cs) = is_hexdigit c && all_hexdigits cs

abbrev last : Text → List Text → Text
last log [] = log
last log (next ∷ logs) = last next logs

-- The digest of one log entry, if it has one.
unfoldable pub digest_in : Text → Option Text
digest_in log =
    match_option (find log (lit "Digest "))
      (if length log == 64 && all_hexdigits log then some log else none)
      (λ idx. some (drop (idx + 7) log))

abbrev first_digest : List Text → Option Text
first_digest [] = none
first_digest (log ∷ logs) = match_option (digest_in log) (first_digest logs) some

-- The first digest of the log entries, or else the last entry.
unfoldable pub digest_of : List Text → Option Text
digest_of [] = none
digest_of (log ∷ logs) = match_option (first_digest (log ∷ logs)) (some (last log logs)) some

module _ {W : Type 0} (t : Transport W) where
  -- `send_xml`
  unfoldable pub send_xml : Text → Act (Link W) FirehoseError (Unit {0})
  send_xml xml = do io (λ w. let run = t.flush w in (dropped run.0, run.1)); io (t.write xml)

-- The range of a command: the size of a sector is the client's.
abbrev pub sectors : {W : Type 0} → ℕ → ℕ → ℕ → Link W → Sectors
sectors physical_partition start_sector num_sectors s = record {
  sector_size = s.client.sector_size;
  num_sectors = num_sectors;
  physical_partition = physical_partition;
  start_sector = start_sector;
}

-- `FirehoseResponse::from_xml(..).map_err(..)?`
unfoldable pub parsed :
    {W : Type 0} → (Text → List XmlEvent) → Text → Act (Link W) FirehoseError FirehoseResponse
parsed xml_events xml = match_option (from_xml xml_events xml) (fail invalid_response) ret

module _ {W : Type 0} (t : Transport W) (xml_events : Text → List XmlEvent) (fuel : ℕ) where
  unfoldable pub execute_command : FirehoseCommand → Act (Link W) FirehoseError FirehoseResponse
  execute_command command = do
    send_xml t (xml_document (to_xml command))
    response_xml ← read_response t fuel
    parsed xml_events response_xml

  -- A command, and an error with the name of the call unless the device acknowledged it.
  unfoldable pub acknowledged : Text → FirehoseCommand → Act (Link W) FirehoseError FirehoseResponse
  acknowledged call command = do
    resp ← execute_command command
    if is_ack resp then ret resp else fail (nak call)

  unfoldable pub configure : Act (Link W) FirehoseError (Unit {0})
  configure s =
      (do
        resp ← execute_command (
            configure_command (record {
              memory_name = s.client.memory_name;
              target_name = s.client.target_name;
              skip_storage_init = false;
              zlp_aware_host = true;
              max_payload_size = s.client.max_payload_size;
            }))
        if is_ack resp
            then (λ s'. (ok tt, record s' { client = configured resp.config s'.client }))
            else fail configure_failed)
        s

  unfoldable pub erase_sectors : ℕ → ℕ → ℕ → Act (Link W) FirehoseError (Unit {0})
  erase_sectors physical_partition start_sector num_sectors s =
      (acknowledged (lit "erase")
            (erase_command (sectors physical_partition start_sector num_sectors s))
          >>= λ resp. ret tt)
        s

  unfoldable pub get_storage_info : Act (Link W) FirehoseError FirehoseResponse
  get_storage_info = execute_command get_storage_info_command

  unfoldable pub get_sha256_digest : ℕ → ℕ → ℕ → Act (Link W) FirehoseError Text
  get_sha256_digest physical_partition start_sector num_sectors s =
      (acknowledged (lit "getsha256digest")
            (get_sha256_digest_command (sectors physical_partition start_sector num_sectors s))
          >>= λ resp. match_option (digest_of resp.logs) (fail invalid_response) ret)
        s

  unfoldable pub poke : ℕ → Bytes → Act (Link W) FirehoseError (Unit {0})
  poke address bytes = acknowledged (lit "poke") (poke_command address bytes) >>= λ resp. ret tt

  unfoldable pub reboot : Act (Link W) FirehoseError (Unit {0})
  reboot = acknowledged (lit "reboot") (power_command (lit "reset")) >>= λ resp. ret tt

  unfoldable pub raw_xml : Text → Act (Link W) FirehoseError FirehoseResponse
  raw_xml xml = execute_command (raw_xml_command xml)
