-- ===== src/Executor/Device.antt =====
-- qedl-job/src/executor.rs: the executor as the context of a job, over the client and the transport.
use qedl_rs.Prelude.{
  ℕ, Bool, Option, none, some, List, [], ◌∷◌, Outcome, ok, err, panic, hang, if◌then◌else◌,
}
use qedl_rs.Prelude.Bytes.{Bytes}
use qedl_rs.Text.{Text}
use qedl_rs.Transport.Port.{Act, ◌>>=◌, ret, Transport}
use qedl_rs.Firehose.Response.{XmlEvent, FirehoseResponse, is_ack}
use qedl_rs.Firehose.Client.{FirehoseClient}
use qedl_rs.Firehose.Client.Calls
use qedl_rs.Firehose.Client.Calls.{some_or, update_from_storage_info}
use qedl_rs.Firehose.Client.Sectors
use qedl_rs.Job.Context.{Name, PartitionInfo, JobError, JobContext, default_erase_sectors}
use qedl_rs.Storage.Gpt.Header.{bytes_eq}
use qedl_rs.Executor.{JobExecutor, with_link}

-- `iter().find(|p| p.name == name)`
unfoldable pub find_info : Name → List PartitionInfo → Option PartitionInfo
find_info name [] = none
find_info name (p ∷ ps) = if bytes_eq p.name name then some p else find_info name ps

-- A result with the state after it; the state after an error is not looked at by a job.
abbrev pub kept : {E A X : Type 0} → Outcome E A × X → Outcome E (A × X)
kept (ok a, x) = ok (a, x)
kept (err e, x) = err e
kept (panic, x) = panic
kept (hang, x) = hang

abbrev pub kept_state : {E X : Type 0} → Outcome E (Unit {0}) × X → Outcome E X
kept_state (ok a, x) = ok x
kept_state (err e, x) = err e
kept_state (panic, x) = panic
kept_state (hang, x) = hang

-- `XmlResponse`
pub record XmlResponse : Type 0 where
  pub acknowledged : Bool
  pub error : Option Text

-- What the answer to `getstorageinfo` changes in the client.
unfoldable pub refreshed : FirehoseResponse → FirehoseClient → FirehoseClient
refreshed resp f =
    update_from_storage_info resp.config.sector_size resp.config.total_sectors
      (record f { memory_name = some_or resp.config.memory_name f.memory_name })

module _ {V W : Type 0} (t : Transport W) (xml_events : Text → List XmlEvent) (fuel : ℕ) where
  unfoldable pub device_read : ℕ → ℕ → ℕ → Act (JobExecutor V W) JobError Bytes
  device_read lun start count = with_link (Sectors.read_sectors t xml_events fuel lun start count)

  unfoldable pub device_write : ℕ → ℕ → ℕ → Bytes → Act (JobExecutor V W) JobError (Unit {0})
  device_write lun start count bytes =
      with_link (Sectors.program_sectors t xml_events fuel lun start count bytes)

  unfoldable pub device_erase : ℕ → ℕ → ℕ → Act (JobExecutor V W) JobError (Unit {0})
  device_erase lun start count = with_link (Calls.erase_sectors t xml_events fuel lun start count)

  -- `raw_xml`
  unfoldable pub device_xml : Text → Act (JobExecutor V W) JobError XmlResponse
  device_xml xml = do
    resp ← with_link (Calls.raw_xml t xml_events fuel xml)
    ret (record { acknowledged = is_ack resp; error = resp.error })

  unfoldable pub device_digest : ℕ → ℕ → ℕ → Act (JobExecutor V W) JobError Text
  device_digest lun start count =
      with_link (Calls.get_sha256_digest t xml_events fuel lun start count)

  unfoldable pub refresh_storage_info : Act (JobExecutor V W) JobError (List Text)
  refresh_storage_info = do
    resp ← with_link (Calls.get_storage_info t xml_events fuel)
    λ x. (ok resp.logs, record x { firehose = refreshed resp x.firehose })

  -- `impl JobContext for JobExecutor`; `erase_sectors` is the default of the trait.
  unfoldable pub executor_context : JobContext (JobExecutor V W)
  executor_context = record {
    read_sectors = λ lun start count x. kept (device_read lun start count x);
    write_sectors = λ lun start count bytes x. kept_state (device_write lun start count bytes x);
    erase_sectors = λ lun start count x.
        default_erase_sectors
          (λ lun' start' count' bytes y. kept_state (device_write lun' start' count' bytes y))
          x.firehose.sector_size x.firehose.max_payload_size lun start count x;
    erase_sectors_native = λ lun start count x. kept_state (device_erase lun start count x);
    sector_size = λ x. x.firehose.sector_size;
    max_payload_size = λ x. x.firehose.max_payload_size;
    find_partition = λ name x. find_info name x.partition_infos;
  }
