-- ===== src/Executor/Reach.antt =====
-- qedl-job/src/executor.rs: every sequence of operations keeps a transport for the ready state.
use qedl_rs.Prelude.{ℕ, some, List, [], ◌∷◌, Outcome, ok, err, panic, hang}
use qedl_rs.Text.{Text}
use qedl_rs.Transport.Port.{Act, Transport}
use qedl_rs.Transport.Device.{DeviceInfo, TransportError, is_diag, Host, switch_diag_to_edl}
use qedl_rs.Core.State.{ready}
use qedl_rs.Firehose.Response.{XmlEvent, FirehoseResponse}
use qedl_rs.Firehose.Client.{FirehoseError, Link}
use qedl_rs.Firehose.Client.Calls.{get_storage_info, configure, poke}
use qedl_rs.Firehose.Client.Calls
use qedl_rs.Firehose.Client.Memory.{drain_initial_messages}
use qedl_rs.Job.Context.{JobError}
use qedl_rs.Executor.{
  ExecutorConfig, ModeOverride, auto_mode, edl_mode, diag_mode, JobExecutor, JobExecutor_new,
  Attempt, done, failed, attempt, with_port, with_link, with_host,
}
use qedl_rs.Executor.Gpt.{keep_table, load_loop, load_gpt, read_gpt_for_lun, luns_of}
use qedl_rs.Executor.Connect.{
  as_edl, find_device, find_switched, switch, connect_auto, connect_to, connect, open_device,
  handshake_sahara, executor_handshake, query_storage, learned, learned_all, init_firehose,
  after_configure, after_drain, init_firehose_only, init, executor_reboot,
}
use qedl_rs.Executor.Device.{refreshed, refresh_storage_info}
use qedl_rs.Executor.Ready.{
  ReadyHasTransport, Keeps, Keeps-and_then, Keeps-if, Keeps-same, Keeps-match_option, set_firehose,
  ready_with_port, new_not_ready, Keeps-with_port, Keeps-with_link, Keeps-with_host, Keeps-attempt,
  Keeps-connected_to, Keeps-after_handshake, Keeps-switch_state, keep_table-Keeps, set_infos-Keeps,
  learn_storage-ReadyHasTransport, update_session-ReadyHasTransport,
}

module _ {V W : Type 0} (host : Host V) (open_port : Text → ℕ → ℕ → Act V TransportError W)
    (t : Transport W) (xml_events : Text → List XmlEvent) (fuel : ℕ) where
  -- An operation keeps a transport for the ready state, whatever it returns.
  abbrev KeepsAll : {A : Type 0} → Act (JobExecutor V W) JobError A → Type 0
  KeepsAll act = (x : JobExecutor V W) → ReadyHasTransport x → Keeps (act x)

  switch-Keeps :
      (device : DeviceInfo) (timeout : ℕ)
      → KeepsAll (switch host open_port t xml_events fuel device timeout)
  unfolding switch
  switch-Keeps device timeout x h =
      Keeps-with_host (switch_diag_to_edl host fuel device.port timeout) x h

  connect_auto-Keeps :
      (device : DeviceInfo) → KeepsAll (connect_auto host open_port t xml_events fuel device)
  unfolding connect_auto
  connect_auto-Keeps device x h =
      Keeps-if (is_diag device) _ _ x
        (Keeps-if x.config.auto_edl_switch _ _ x
          (Keeps-and_then (switch host open_port t xml_events fuel device x.config.timeout x) _
            (switch-Keeps device x.config.timeout x h)
            (λ done y k.
              Keeps-and_then
                (with_host (find_switched host open_port t xml_events fuel x.config.port) y) _
                (Keeps-with_host (find_switched host open_port t xml_events fuel x.config.port) y k)
                (λ switched z m. Keeps-connected_to switched (as_edl switched) z)))
          (Keeps-same _ x h))
        (Keeps-connected_to device device x)

  connect_to-Keeps :
      (mode : ModeOverride) (device : DeviceInfo)
      → KeepsAll (connect_to host open_port t xml_events fuel mode device)
  unfolding connect_to
  connect_to-Keeps edl_mode device x h = Keeps-connected_to device (as_edl device) x
  connect_to-Keeps diag_mode device x h = switch-Keeps device x.config.timeout x h
  connect_to-Keeps auto_mode device x h = connect_auto-Keeps device x h

  connect-Keeps : KeepsAll (connect host open_port t xml_events fuel)
  unfolding connect
  connect-Keeps x h =
      let found = find_device host open_port t xml_events fuel x.config.port x.config.serial in
      Keeps-and_then (with_host found x) _ (Keeps-with_host found x h)
        (λ device y k. connect_to-Keeps x.config.force_mode device y k)

  open_device-Keeps : KeepsAll (open_device host open_port t xml_events fuel)
  unfolding open_device
  open_device-Keeps x h =
      Keeps-match_option x.device _ _ x (Keeps-same _ x h)
        (λ d. Keeps-with_host (open_port d.port 115200 x.config.timeout) x h)

  executor_handshake-Keeps : KeepsAll (executor_handshake host open_port t xml_events fuel)
  unfolding executor_handshake handshake_sahara
  executor_handshake-Keeps x h =
      Keeps-and_then (open_device host open_port t xml_events fuel x) _ (open_device-Keeps x h)
        (λ w y k. Keeps-after_handshake y _ k)

  query_storage-Keeps : KeepsAll (query_storage host open_port t xml_events fuel)
  unfolding query_storage
  query_storage-Keeps x h =
      Keeps-attempt (with_link (get_storage_info t xml_events fuel)) x
        (Keeps-with_link (get_storage_info t xml_events fuel) x h)

  learned-ReadyHasTransport :
      (resp : Attempt JobError FirehoseResponse) (x : JobExecutor V W)
      → ReadyHasTransport x
      → ReadyHasTransport (learned host open_port t xml_events fuel resp x)
  learned-ReadyHasTransport (done resp) x h = learn_storage-ReadyHasTransport resp x h
  learned-ReadyHasTransport (failed e) x h = h

  learned_all-ReadyHasTransport :
      (resp : Attempt JobError FirehoseResponse) (x : JobExecutor V W)
      → ReadyHasTransport x
      → ReadyHasTransport (learned_all host open_port t xml_events fuel resp x)
  learned_all-ReadyHasTransport (done resp) x h =
      update_session-ReadyHasTransport _ (learn_storage-ReadyHasTransport resp x h)
  learned_all-ReadyHasTransport (failed e) x h = h

  init_firehose-Keeps : KeepsAll (init_firehose host open_port t xml_events fuel)
  unfolding init_firehose
  init_firehose-Keeps x h =
      let drain = drain_initial_messages t fuel in
      let config = configure t xml_events fuel in
      Keeps-and_then (with_link drain x) _ (Keeps-with_link drain x h) (λ a y k.
        Keeps-and_then (with_link config y) _ (Keeps-with_link config y k) (λ b z m.
          Keeps-and_then (query_storage host open_port t xml_events fuel z) _
            (query_storage-Keeps z m)
            (λ resp v n.
              Keeps-same _ _
                (update_session-ReadyHasTransport _ (learned-ReadyHasTransport resp v n)))))

  load_loop-Keeps :
      (sector_size total_sectors : ℕ) (luns : List ℕ)
      → KeepsAll (load_loop t xml_events fuel sector_size total_sectors luns)
  unfolding load_loop
  load_loop-Keeps sector_size total_sectors [] x h = Keeps-same _ x h
  load_loop-Keeps sector_size total_sectors (lun ∷ luns) x h =
      let reading = read_gpt_for_lun t xml_events fuel lun sector_size total_sectors in
      Keeps-and_then (attempt (with_port reading) x) _
        (Keeps-attempt (with_port reading) x (Keeps-with_port reading x h))
        (λ table y k.
          Keeps-and_then (keep_table lun table y) _ (keep_table-Keeps lun table y k)
            (λ a z m. load_loop-Keeps sector_size total_sectors luns z m))

  load_gpt-Keeps : KeepsAll (load_gpt t xml_events fuel)
  unfolding load_gpt
  load_gpt-Keeps x h =
      let f = x.firehose in
      let luns = luns_of f.memory_name in
      Keeps-match_option x.transport _ _ x (Keeps-same _ x h) (λ w.
        Keeps-and_then (load_loop t xml_events fuel f.sector_size f.total_sectors luns x) _
          (load_loop-Keeps f.sector_size f.total_sectors luns x h) (λ a y k. set_infos-Keeps y k))

  init-Keeps : KeepsAll (init host open_port t xml_events fuel)
  unfolding init
  init-Keeps x h =
      Keeps-and_then (connect host open_port t xml_events fuel x) _ (connect-Keeps x h) (λ a y k.
        Keeps-and_then (executor_handshake host open_port t xml_events fuel y) _
          (executor_handshake-Keeps y k)
          (λ b z m.
            Keeps-and_then (init_firehose host open_port t xml_events fuel z) _
              (init_firehose-Keeps z m) (λ c v n. load_gpt-Keeps v n)))

  after_configure-Keeps :
      (x : JobExecutor V W) (run : Outcome FirehoseError (Unit {0}) × Link W)
      → ReadyHasTransport x
      → Keeps (after_configure host open_port t xml_events fuel x run)
  unfolding after_configure
  after_configure-Keeps x (ok a, s) h =
      let y = record x { firehose = s.client; transport = some s.port; state = ready } in
      Keeps-and_then (query_storage host open_port t xml_events fuel y) _
        (query_storage-Keeps y (ready_with_port s.client s.port x))
        (λ resp z k. Keeps-same _ _ (learned_all-ReadyHasTransport resp z k))
  after_configure-Keeps x (err e, s) h =
      Keeps-and_then
        (executor_handshake host open_port t xml_events fuel (record x { firehose = s.client })) _
        (executor_handshake-Keeps _ (set_firehose s.client x h)) (λ a y k. init_firehose-Keeps y k)
  after_configure-Keeps x (panic, s) h = Keeps-same _ _ (set_firehose s.client x h)
  after_configure-Keeps x (hang, s) h = Keeps-same _ _ (set_firehose s.client x h)

  after_drain-Keeps :
      (x : JobExecutor V W) (run : Outcome FirehoseError (Unit {0}) × Link W)
      → ReadyHasTransport x
      → Keeps (after_drain host open_port t xml_events fuel x run)
  unfolding after_drain
  after_drain-Keeps x (ok a, s) h = after_configure-Keeps x (configure t xml_events fuel s) h
  after_drain-Keeps x (err e, s) h = Keeps-same _ _ (set_firehose s.client x h)
  after_drain-Keeps x (panic, s) h = Keeps-same _ _ (set_firehose s.client x h)
  after_drain-Keeps x (hang, s) h = Keeps-same _ _ (set_firehose s.client x h)

  init_firehose_only-Keeps : KeepsAll (init_firehose_only host open_port t xml_events fuel)
  unfolding init_firehose_only
  init_firehose_only-Keeps x h =
      Keeps-and_then (connect host open_port t xml_events fuel x) _ (connect-Keeps x h) (λ a y k.
        Keeps-and_then (open_device host open_port t xml_events fuel y) _ (open_device-Keeps y k)
          (λ w z m. after_drain-Keeps z _ m))

  executor_reboot-Keeps : KeepsAll (executor_reboot host open_port t xml_events fuel)
  unfolding executor_reboot
  executor_reboot-Keeps x h =
      let rebooting = Calls.reboot t xml_events fuel in
      Keeps-and_then (with_link rebooting x) _ (Keeps-with_link rebooting x h)
        (λ a y k. Keeps-switch_state (ok tt) y)

  refresh_storage_info-Keeps : KeepsAll (refresh_storage_info t xml_events fuel)
  unfolding refresh_storage_info
  refresh_storage_info-Keeps x h =
      let query = get_storage_info t xml_events fuel in
      Keeps-and_then (with_link query x) _ (Keeps-with_link query x h)
        (λ resp y k. Keeps-same _ _ (set_firehose (refreshed resp y.firehose) y k))

  -- The states that calls of the executor lead to, errors and panics of the calls included. The
  -- other calls, of the executor and of the context of its jobs, are calls of the client.
  pub data Reached (config : ExecutorConfig) (v : V) : JobExecutor V W → Type 1 where
    created : Reached config v (JobExecutor_new config v)
    connecting :
        (x : JobExecutor V W)
        → Reached config v x
        → Reached config v (connect host open_port t xml_events fuel x).1
    shaking :
        (x : JobExecutor V W)
        → Reached config v x
        → Reached config v (executor_handshake host open_port t xml_events fuel x).1
    starting :
        (x : JobExecutor V W)
        → Reached config v x
        → Reached config v (init_firehose host open_port t xml_events fuel x).1
    loading :
        (x : JobExecutor V W)
        → Reached config v x
        → Reached config v (load_gpt t xml_events fuel x).1
    initialising :
        (x : JobExecutor V W)
        → Reached config v x
        → Reached config v (init host open_port t xml_events fuel x).1
    initialising_only :
        (x : JobExecutor V W)
        → Reached config v x
        → Reached config v (init_firehose_only host open_port t xml_events fuel x).1
    rebooting :
        (x : JobExecutor V W)
        → Reached config v x
        → Reached config v (executor_reboot host open_port t xml_events fuel x).1
    calling :
        {A : Type 0} (act : Act (Link W) FirehoseError A) (x : JobExecutor V W)
        → Reached config v x
        → Reached config v (with_link act x).1
    refreshing :
        (x : JobExecutor V W)
        → Reached config v x
        → Reached config v (refresh_storage_info t xml_events fuel x).1

  -- In every state that calls of the executor lead to from a new one, also calls that fail, a ready
  -- executor has a transport.
  pub Reached-ReadyHasTransport :
      (config : ExecutorConfig) (v : V) (x : JobExecutor V W)
      → Reached config v x
      → ReadyHasTransport x
  unfolding Keeps
  Reached-ReadyHasTransport config v x created = new_not_ready V W config v
  Reached-ReadyHasTransport config v x (connecting y r) =
      connect-Keeps y (Reached-ReadyHasTransport config v y r)
  Reached-ReadyHasTransport config v x (shaking y r) =
      executor_handshake-Keeps y (Reached-ReadyHasTransport config v y r)
  Reached-ReadyHasTransport config v x (starting y r) =
      init_firehose-Keeps y (Reached-ReadyHasTransport config v y r)
  Reached-ReadyHasTransport config v x (loading y r) =
      load_gpt-Keeps y (Reached-ReadyHasTransport config v y r)
  Reached-ReadyHasTransport config v x (initialising y r) =
      init-Keeps y (Reached-ReadyHasTransport config v y r)
  Reached-ReadyHasTransport config v x (initialising_only y r) =
      init_firehose_only-Keeps y (Reached-ReadyHasTransport config v y r)
  Reached-ReadyHasTransport config v x (rebooting y r) =
      executor_reboot-Keeps y (Reached-ReadyHasTransport config v y r)
  Reached-ReadyHasTransport config v x (calling act y r) =
      Keeps-with_link act y (Reached-ReadyHasTransport config v y r)
  Reached-ReadyHasTransport config v x (refreshing y r) =
      refresh_storage_info-Keeps y (Reached-ReadyHasTransport config v y r)
