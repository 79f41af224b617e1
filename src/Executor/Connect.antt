-- ===== src/Executor/Connect.antt =====
-- qedl-job/src/executor.rs: the operations of the executor, from `connect` to `execute`.
use qedl_rs.Prelude.{
  ℕ, Bool, true, false, ◌||◌, Option, none, some, List, ◌*◌, Outcome, ok, err, panic, hang,
  match_option, if◌then◌else◌,
}
use qedl_rs.Prelude.Bytes.{Bytes}
use qedl_rs.Text.{Text, lit, contains}
use qedl_rs.Text.Utf8.{from_utf8_lossy}
use qedl_rs.Transport.Port.{Act, ◌>>=◌, ◌>>◌, fail, Transport}
use qedl_rs.Transport.Device.{
  edl, DeviceInfo, TransportError, is_diag, Host, auto_select, find_by_port, find_by_serial,
  switch_diag_to_edl, qualcomm_vid,
}
use qedl_rs.Core.State.{connected, ready, resetting}
use qedl_rs.Sahara.Protocol.{SaharaError, image_transfer}
use qedl_rs.Sahara.Session.{SaharaSession, waiting_hello}
use qedl_rs.Sahara.Handshake.{SaharaDeviceInfo, handshake}
use qedl_rs.Firehose.Response.{XmlEvent, FirehoseResponse}
use qedl_rs.Firehose.Client.{FirehoseError, Link}
use qedl_rs.Firehose.Client.Calls.{configure, get_storage_info, poke, update_from_storage_info}
use qedl_rs.Firehose.Client.Calls
use qedl_rs.Firehose.Client.Memory.{peek, drain_initial_messages}
use qedl_rs.Job.Context.{JobError, JobResult, precondition_failed, sahara, firehose}
use qedl_rs.Executor.{
  ModeOverride, auto_mode, edl_mode, diag_mode, Session_new, update_from_firehose, JobExecutor,
  Attempt, done, failed, attempt, with_link, with_host,
}
use qedl_rs.Executor.Gpt.{load_gpt}

abbrev is_some : {A : Type 0} → Option A → Bool
is_some none = false
is_some (some a) = true

-- The text that `try_firehose_nop` of the Sahara session writes, and its test of the answer.
abbrev pub nop_xml : Bytes
nop_xml = lit "<?xml version=\"1.0\" encoding=\"UTF-8\" ?>\n<data>\n<nop />\n</data>"

abbrev pub contains_ack : Bytes → Bool
contains_ack bytes = contains (from_utf8_lossy bytes) (lit "ACK")

-- `SaharaSession::new`
abbrev pub SaharaSession_new : {W : Type 0} → W → SaharaSession W
SaharaSession_new w = record {
  state = waiting_hello;
  protocol_version = 2;
  max_chunk_size = 1024 * 1024;
  transport = w;
}

-- The device as a session for EDL shows it.
abbrev pub as_edl : DeviceInfo → DeviceInfo
as_edl d = record d { pid = 0x9008; vid = qualcomm_vid; mode = edl }

module _ {V W : Type 0} where
  -- The device is kept, with a session for it.
  unfoldable pub connected_to : DeviceInfo → DeviceInfo → Act (JobExecutor V W) JobError (Unit {0})
  connected_to device info x = (
    ok tt,
    record x { device = some device; state = connected; session = some (Session_new info) },
  )

  -- The end of `handshake_sahara`: the session learns the identifiers, and the executor is ready.
  unfoldable pub ready_on : W → SaharaDeviceInfo → JobExecutor V W → JobExecutor V W
  ready_on w info x = record x {
    transport = some w;
    state = ready;
    session =
        match_option x.session none
          (λ s. some (record s { msm_hw_id = info.msm_hw_id; serial_num = info.serial_num }));
  }

  abbrev pub after_handshake :
      JobExecutor V W
      → Outcome SaharaError SaharaDeviceInfo × SaharaSession W
      → Outcome JobError (Unit {0}) × JobExecutor V W
  after_handshake x (ok info, s) = (ok tt, ready_on s.transport info x)
  after_handshake x (err e, s) = (err sahara, x)
  after_handshake x (panic, s) = (panic, x)
  after_handshake x (hang, s) = (hang, x)

  -- What `getstorageinfo` tells, where it tells anything.
  unfoldable pub learn_storage : FirehoseResponse → JobExecutor V W → JobExecutor V W
  learn_storage resp x =
      if is_some resp.config.sector_size || is_some resp.config.total_sectors
      then record x {
        firehose =
            update_from_storage_info resp.config.sector_size resp.config.total_sectors x.firehose;
      }
      else x

  unfoldable pub update_session : JobExecutor V W → JobExecutor V W
  update_session x = record x {
    session = match_option x.session none (λ s. some (update_from_firehose x.firehose s));
  }

-- A job, as what its two methods do to the executor.
pub record Job (V W : Type 0) : Type 0 where
  pub validate : JobExecutor V W → Outcome JobError (Unit {0})
  pub run : Act (JobExecutor V W) JobError JobResult

-- `execute`
unfoldable pub execute : {V W : Type 0} → Job V W → Act (JobExecutor V W) JobError JobResult
execute job x =
    if x.config.dry_run
    then (ok (record { success = true; steps_completed = 0 }), x)
    else match_option x.transport (err precondition_failed, x)
        (λ w. ((λ y. (job.validate y, y)) >> job.run) x)

-- `open` opens a serial port at a baud rate with a timeout.
module _ {V W : Type 0} (host : Host V) (open_port : Text → ℕ → ℕ → Act V TransportError W)
    (t : Transport W) (xml_events : Text → List XmlEvent) (fuel : ℕ) where
  -- The first device of `connect`.
  unfoldable pub find_device : Option Text → Option Text → Act V TransportError DeviceInfo
  find_device (some port) serial = find_by_port host port
  find_device none (some serial) = find_by_serial host serial
  find_device none none = auto_select host

  -- The device after the switch.
  unfoldable pub find_switched : Option Text → Act V TransportError DeviceInfo
  find_switched (some port) = find_by_port host port
  find_switched none = auto_select host

  unfoldable pub switch : DeviceInfo → ℕ → Act (JobExecutor V W) JobError (Unit {0})
  switch device timeout = with_host (switch_diag_to_edl host fuel device.port timeout)

  -- `connect` once a device is found, without an override.
  unfoldable pub connect_auto : DeviceInfo → Act (JobExecutor V W) JobError (Unit {0})
  connect_auto device x =
      let switching = (do
        switch device x.config.timeout
        switched ← with_host (find_switched x.config.port)
        connected_to switched (as_edl switched)) in
      (if is_diag device
          then (if x.config.auto_edl_switch then switching else fail precondition_failed)
          else connected_to device device)
        x

  unfoldable pub connect_to : ModeOverride → DeviceInfo → Act (JobExecutor V W) JobError (Unit {0})
  connect_to edl_mode device = connected_to device (as_edl device)
  connect_to diag_mode device = λ x. switch device x.config.timeout x
  connect_to auto_mode device = connect_auto device

  unfoldable pub connect : Act (JobExecutor V W) JobError (Unit {0})
  connect x =
      (do
        device ← with_host (find_device x.config.port x.config.serial)
        connect_to x.config.force_mode device)
        x

  -- `SerialTransport::open(&device.port, 115200, ..)` on the device of `connect`.
  unfoldable pub open_device : Act (JobExecutor V W) JobError W
  open_device x =
      match_option x.device (err precondition_failed, x)
        (λ d. with_host (open_port d.port 115200 x.config.timeout) x)

  -- `handshake_sahara`; a transport on which it fails is dropped.
  unfoldable pub handshake_sahara : W → Act (JobExecutor V W) JobError (Unit {0})
  handshake_sahara w x =
      after_handshake x
        (handshake t nop_xml contains_ack fuel x.config.loader image_transfer (SaharaSession_new w))

  unfoldable pub executor_handshake : Act (JobExecutor V W) JobError (Unit {0})
  executor_handshake = open_device >>= handshake_sahara

  -- The query of the storage, whose error is only logged.
  unfoldable pub query_storage : Act (JobExecutor V W) JobError (Attempt JobError FirehoseResponse)
  query_storage = attempt (with_link (get_storage_info t xml_events fuel))

  abbrev pub learned : Attempt JobError FirehoseResponse → JobExecutor V W → JobExecutor V W
  learned (done resp) x = learn_storage resp x
  learned (failed e) x = x

  unfoldable pub init_firehose : Act (JobExecutor V W) JobError (Unit {0})
  init_firehose = do
    with_link (drain_initial_messages t fuel)
    with_link (configure t xml_events fuel)
    resp ← query_storage
    λ x. (ok tt, update_session (learned resp x))

  -- The session is updated here only where the query succeeds.
  abbrev pub learned_all : Attempt JobError FirehoseResponse → JobExecutor V W → JobExecutor V W
  learned_all (done resp) x = update_session (learn_storage resp x)
  learned_all (failed e) x = x

  -- After a direct `configure` on a transport of its own, which is dropped where it fails.
  unfoldable pub after_configure :
      JobExecutor V W
      → Outcome FirehoseError (Unit {0}) × Link W
      → Outcome JobError (Unit {0}) × JobExecutor V W
  after_configure x (ok a, s) =
      (query_storage >>= λ resp y. (ok tt, learned_all resp y))
        (record x { firehose = s.client; transport = some s.port; state = ready })
  after_configure x (err e, s) =
      (executor_handshake >> init_firehose) (record x { firehose = s.client })
  after_configure x (panic, s) = (panic, record x { firehose = s.client })
  after_configure x (hang, s) = (hang, record x { firehose = s.client })

  -- A drain that fails ends the call.
  unfoldable pub after_drain :
      JobExecutor V W
      → Outcome FirehoseError (Unit {0}) × Link W
      → Outcome JobError (Unit {0}) × JobExecutor V W
  after_drain x (ok a, s) = after_configure x (configure t xml_events fuel s)
  after_drain x (err e, s) = (err firehose, record x { firehose = s.client })
  after_drain x (panic, s) = (panic, record x { firehose = s.client })
  after_drain x (hang, s) = (hang, record x { firehose = s.client })

  unfoldable pub init_firehose_only : Act (JobExecutor V W) JobError (Unit {0})
  init_firehose_only = do
    connect
    w ← open_device
    λ x. after_drain x (drain_initial_messages t fuel (record { client = x.firehose; port = w }))

  unfoldable pub init : Act (JobExecutor V W) JobError (Unit {0})
  init = do connect; executor_handshake; init_firehose; load_gpt t xml_events fuel

  -- `reboot`: the state is set without `transition`.
  unfoldable pub executor_reboot : Act (JobExecutor V W) JobError (Unit {0})
  executor_reboot =
      with_link (Calls.reboot t xml_events fuel) >> λ x. (ok tt, record x { state = resetting })

  unfoldable pub executor_peek : ℕ → ℕ → Act (JobExecutor V W) JobError Bytes
  executor_peek address size = with_link (peek t fuel address size)

  unfoldable pub executor_poke : ℕ → Bytes → Act (JobExecutor V W) JobError (Unit {0})
  executor_poke address bytes = with_link (poke t xml_events fuel address bytes)
