-- ===== src/Executor.antt =====
-- qedl-job/src/executor.rs: the executor of jobs, its configuration and its state.
pub mod Gpt
pub mod Connect
pub mod Device
pub mod Ready
pub mod Reach
pub mod Laws
mod Tests
use qedl_rs.Prelude.{
  ℕ, Bool, true, false, Option, none, some, List, [], ◌∷◌, ◌*◌, Outcome, ok, err, panic, hang,
  match_option, if◌then◌else◌,
}
use qedl_rs.Prelude.Bytes.{Bytes}
use qedl_rs.Text.{Text, lit}
use qedl_rs.Transport.Port.{Act, ◌>>=◌, ◌>>◌, ret, fail}
use qedl_rs.Transport.Device.{DeviceMode, edl, DeviceInfo, TransportError}
use qedl_rs.Core.State.{DeviceState, disconnected}
use qedl_rs.Firehose.Client.{FirehoseError, FirehoseClient, FirehoseClient_new, Link}
use qedl_rs.Job.Context.{
  PartitionInfo, JobError, precondition_failed, transport, sahara, firehose, storage,
}
use qedl_rs.Storage.Partition.{PartitionMap, PartitionMap_new}

-- `ModeOverride`
pub data ModeOverride : Type 0 where
  auto_mode edl_mode diag_mode : ModeOverride

-- The fields that the code below reads; the loader is its path, with what a read of the file gives.
pub record ExecutorConfig : Type 0 where
  pub port : Option Text
  pub serial : Option Text
  pub loader : Option (Option Bytes)
  pub timeout : ℕ
  pub dry_run : Bool
  pub auto_edl_switch : Bool
  pub force_mode : ModeOverride

-- qedl-core/src/session.rs: `Session` with its `DeviceCapabilities` and `FirehoseInfo`.
pub record Session : Type 0 where
  pub info : DeviceInfo
  pub memory_type : Text
  pub total_sectors : ℕ
  pub sector_size : ℕ
  pub max_payload_size : ℕ
  pub max_payload_size_from_target : Option ℕ
  pub max_payload_size_to_target_supported : Option ℕ
  pub max_xml_size : Option ℕ
  pub target_name : Option Text
  pub version : Option Text
  pub msm_hw_id : Option Bytes
  pub serial_num : Option ℕ

-- `Session::new`, with the defaults of the capabilities and of the Firehose information.
abbrev pub Session_new : DeviceInfo → Session
Session_new info = record {
  info = info;
  memory_type = lit "eMMC";
  total_sectors = 0;
  sector_size = 512;
  max_payload_size = 1024 * 1024;
  max_payload_size_from_target = none;
  max_payload_size_to_target_supported = none;
  max_xml_size = none;
  target_name = none;
  version = none;
  msm_hw_id = none;
  serial_num = none;
}

-- `Session::update_from_firehose`
unfoldable pub update_from_firehose : FirehoseClient → Session → Session
update_from_firehose f s = record s {
  sector_size = f.sector_size;
  max_payload_size = f.max_payload_size;
  max_payload_size_from_target = f.max_payload_size_from_target;
  max_payload_size_to_target_supported = f.max_payload_size_to_target_supported;
  max_xml_size = f.max_xml_size;
  target_name = some f.target_name;
  version = f.version;
  memory_type = f.memory_name;
  total_sectors = f.total_sectors;
}

-- `V` is the state of the operating system, `W` that of an open transport.
pub record JobExecutor (V W : Type 0) : Type 0 where
  pub config : ExecutorConfig
  pub device : Option DeviceInfo
  pub transport : Option W
  pub firehose : FirehoseClient
  pub partitions : PartitionMap
  pub partition_infos : List PartitionInfo
  pub state : DeviceState
  pub session : Option Session
  pub host : V

-- `JobExecutor::new`
abbrev pub JobExecutor_new : {V W : Type 0} → ExecutorConfig → V → JobExecutor V W
JobExecutor_new config host = record {
  config = config;
  device = none;
  transport = none;
  firehose = FirehoseClient_new;
  partitions = record { tables = []; name_index = [] };
  partition_infos = [];
  state = disconnected;
  session = none;
  host = host;
}

-- An error of a component, as one of the executor.
abbrev pub map_err : {E F A : Type 0} → (E → F) → Outcome E A → Outcome F A
map_err f (ok a) = ok a
map_err f (err e) = err (f e)
map_err f panic = panic
map_err f hang = hang

-- A call whose error the caller looks at.
pub data Attempt (E A : Type 0) : Type 0 where
  done : A → Attempt E A
  failed : E → Attempt E A

abbrev pub attempted : {E A : Type 0} → Outcome E A → Outcome E (Attempt E A)
attempted (ok a) = ok (done a)
attempted (err e) = ok (failed e)
attempted panic = panic
attempted hang = hang

abbrev pub attempt : {W E A : Type 0} → Act W E A → Act W E (Attempt E A)
attempt act w = let run = act w in (attempted run.0, run.1)

abbrev pub lifted : {W A : Type 0} → Act (Link W) FirehoseError A → Act (Link W) JobError A
lifted act s = let run = act s in (map_err (λ e. firehose) run.0, run.1)

module _ {V W : Type 0} where
  -- What a call with the client and the transport leaves of them.
  abbrev pub after_port :
      {A : Type 0}
      → JobExecutor V W
      → Outcome JobError A × Link W
      → Outcome JobError A × JobExecutor V W
  after_port x run = (run.0, record x { firehose = run.1.client; transport = some run.1.port })

  -- `self.transport.as_mut().ok_or_else(..)?`, then a call with the client and the transport.
  unfoldable pub with_port :
      {A : Type 0} → Act (Link W) JobError A → Act (JobExecutor V W) JobError A
  with_port act x =
      match_option x.transport (err precondition_failed, x)
        (λ w. after_port x (act (record { client = x.firehose; port = w })))

  -- A call of the client, its error one of the executor.
  unfoldable pub with_link :
      {A : Type 0} → Act (Link W) FirehoseError A → Act (JobExecutor V W) JobError A
  unfolding with_port
  with_link act = with_port (lifted act)

  unfoldable pub with_host :
      {A : Type 0} → Act V TransportError A → Act (JobExecutor V W) JobError A
  with_host act x =
      let run = act x.host in (map_err (λ e. transport) run.0, record x { host = run.1 })
