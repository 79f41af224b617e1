-- ===== src/Executor/Ready.antt =====
-- qedl-job/src/executor.rs: an executor in the ready state has a transport.
use qedl_rs.Prelude.{
  ℕ, ◌≡◌, ◌≢◌, refl, Bool, true, false, ◌||◌, ◌&&◌, Option, none, some, Outcome, ok, err, panic,
  hang, match_option, ◌==◌, if◌then◌else◌,
}
use qedl_rs.Transport.Port.{Act, and_then}
use qedl_rs.Transport.Device.{DeviceInfo, TransportError}
use qedl_rs.Core.State.{connected, ready, resetting, disconnected}
use qedl_rs.Firehose.Response.{FirehoseResponse}
use qedl_rs.Firehose.Client.{FirehoseError, FirehoseClient, Link}
use qedl_rs.Sahara.Protocol.{SaharaError}
use qedl_rs.Sahara.Session.{SaharaSession}
use qedl_rs.Sahara.Handshake.{SaharaDeviceInfo}
use qedl_rs.Job.Context.{JobError, precondition_failed}
use qedl_rs.Storage.Gpt.Table.{GptTable}
use qedl_rs.Executor.{
  ExecutorConfig, JobExecutor, JobExecutor_new, Attempt, done, failed, attempt, after_port,
  with_port, lifted, with_link, with_host,
}
use qedl_rs.Executor.Gpt.{learn_total, keep_table, set_infos}
use qedl_rs.Executor.Connect.{
  connected_to, ready_on, after_handshake, learn_storage, update_session,
}

abbrev has : {A : Type 0} → Option A → Bool
has none = false
has (some a) = true

not_ready : connected ≢ ready
not_ready h = cc h

disconnected_not_ready : disconnected ≢ ready
disconnected_not_ready h = cc h

resetting_not_ready : resetting ≢ ready
resetting_not_ready h = cc h

module _ {V W : Type 0} where
  -- In the ready state there is a transport.
  unfoldable pub ReadyHasTransport : JobExecutor V W → Type 0
  ReadyHasTransport x = x.state ≡ ready → has x.transport ≡ true

  -- A call that leaves an executor so, whatever it returns.
  unfoldable pub Keeps : {E A : Type 0} → Outcome E A × JobExecutor V W → Type 0
  Keeps run = ReadyHasTransport run.1

  pub Keeps-and_then :
      {E A B : Type 0} (run : Outcome E A × JobExecutor V W) (next : A → Act (JobExecutor V W) E B)
      → Keeps run
      → ((a : A) (x : JobExecutor V W) → ReadyHasTransport x → Keeps (next a x))
      → Keeps (and_then run next)
  unfolding Keeps
  Keeps-and_then (ok a, x) next h k = k a x h
  Keeps-and_then (err e, x) next h k = h
  Keeps-and_then (panic, x) next h k = h
  Keeps-and_then (hang, x) next h k = h

  pub Keeps-if :
      {E A : Type 0} (test : Bool) (f g : Act (JobExecutor V W) E A) (x : JobExecutor V W)
      → Keeps (f x)
      → Keeps (g x)
      → Keeps ((if test then f else g) x)
  Keeps-if true f g x h k = h
  Keeps-if false f g x h k = k

  pub Keeps-match_option :
      {E A B : Type 0} (o : Option B) (f : Outcome E A × JobExecutor V W)
      (g : B → Outcome E A × JobExecutor V W) (x : JobExecutor V W)
      → Keeps f
      → ((b : B) → Keeps (g b))
      → Keeps (match_option o f g)
  Keeps-match_option none f g x h k = h
  Keeps-match_option (some b) f g x h k = k b

  pub Keeps-same :
      {E A : Type 0} (o : Outcome E A) (x : JobExecutor V W) → ReadyHasTransport x → Keeps (o, x)
  unfolding Keeps
  Keeps-same o x h = h

  pub Keeps-some :
      {E A : Type 0} (o : Outcome E A) (x : JobExecutor V W) → has x.transport ≡ true → Keeps (o, x)
  unfolding Keeps ReadyHasTransport
  Keeps-some o x h ready_state = h

  pub Keeps-with_port :
      {A : Type 0} (act : Act (Link W) JobError A) (x : JobExecutor V W)
      → ReadyHasTransport x
      → Keeps (with_port act x)
  unfolding Keeps ReadyHasTransport with_port
  Keeps-with_port act x h =
      elim (x.transport)
          as (λ o.
            (x.state ≡ ready → has o ≡ true)
            → Keeps (
                match_option o (err precondition_failed, x)
                  (λ w. after_port x (act (record { client = x.firehose; port = w }))))) [
                    | none ↦ λ k. h
                    | some w ↦ λ k is_ready. refl
                  ]
        h

  pub Keeps-with_link :
      {A : Type 0} (act : Act (Link W) FirehoseError A) (x : JobExecutor V W)
      → ReadyHasTransport x
      → Keeps (with_link act x)
  unfolding with_link
  Keeps-with_link act x h = Keeps-with_port (lifted act) x h

  pub Keeps-with_host :
      {A : Type 0} (act : Act V TransportError A) (x : JobExecutor V W)
      → ReadyHasTransport x
      → Keeps (with_host act x)
  unfolding Keeps ReadyHasTransport with_host
  Keeps-with_host act x h = h

  pub Keeps-attempt :
      {A : Type 0} (act : Act (JobExecutor V W) JobError A) (x : JobExecutor V W)
      → Keeps (act x)
      → Keeps (attempt act x)
  unfolding Keeps
  Keeps-attempt act x h = h

  pub Keeps-connected_to :
      (device info : DeviceInfo) (x : JobExecutor V W) → Keeps (connected_to device info x)
  unfolding Keeps ReadyHasTransport connected_to
  Keeps-connected_to device info x is_ready = absurd (not_ready is_ready)

  pub Keeps-after_handshake :
      (x : JobExecutor V W) (run : Outcome SaharaError SaharaDeviceInfo × SaharaSession W)
      → ReadyHasTransport x
      → Keeps (after_handshake x run)
  unfolding Keeps ReadyHasTransport ready_on
  Keeps-after_handshake x (ok info, s) h = λ is_ready. refl
  Keeps-after_handshake x (err e, s) h = h
  Keeps-after_handshake x (panic, s) h = h
  Keeps-after_handshake x (hang, s) h = h

  pub Keeps-switch_state :
      {A : Type 0} (o : Outcome JobError A) (x : JobExecutor V W)
      → Keeps (o, record x { state = resetting })
  unfolding Keeps ReadyHasTransport
  Keeps-switch_state o x is_ready = absurd (resetting_not_ready is_ready)

  choose :
      (test : Bool) (x y : JobExecutor V W)
      → ReadyHasTransport x
      → ReadyHasTransport y
      → ReadyHasTransport (if test then x else y)
  choose true x y h k = h
  choose false x y h k = k

  choose_option :
      {A : Type 0} (o : Option A) (x : JobExecutor V W) (f : A → JobExecutor V W)
      → ReadyHasTransport x
      → ((a : A) → ReadyHasTransport (f a))
      → ReadyHasTransport (match_option o x f)
  choose_option none x f h k = h
  choose_option (some a) x f h k = k a

  pub set_firehose :
      (f : FirehoseClient) (x : JobExecutor V W)
      → ReadyHasTransport x
      → ReadyHasTransport (record x { firehose = f })
  unfolding ReadyHasTransport
  set_firehose f x h = h

  pub learn_total-ReadyHasTransport :
      (table : GptTable) (x : JobExecutor V W)
      → ReadyHasTransport x
      → ReadyHasTransport (learn_total table x)
  unfolding learn_total
  learn_total-ReadyHasTransport table x h = choose_option table.header x _ h (λ hdr.
      choose (x.firehose.total_sectors == 0 && table.primary_valid) _ x (set_firehose _ x h) h)

  pub keep_table-Keeps :
      (lun : ℕ) (table : Attempt JobError GptTable) (x : JobExecutor V W)
      → ReadyHasTransport x
      → Keeps (keep_table lun table x)
  unfolding Keeps ReadyHasTransport keep_table
  keep_table-Keeps lun (done table) x h = learn_total-ReadyHasTransport table x h
  keep_table-Keeps lun (failed e) x h = h

  pub set_infos-Keeps : (x : JobExecutor V W) → ReadyHasTransport x → Keeps (set_infos x)
  unfolding Keeps ReadyHasTransport set_infos
  set_infos-Keeps x h = h

  pub learn_storage-ReadyHasTransport :
      (resp : FirehoseResponse) (x : JobExecutor V W)
      → ReadyHasTransport x
      → ReadyHasTransport (learn_storage resp x)
  unfolding learn_storage
  learn_storage-ReadyHasTransport resp x h =
      choose (has resp.config.sector_size || has resp.config.total_sectors) _ x (set_firehose _ x h)
        h

  pub update_session-ReadyHasTransport :
      (x : JobExecutor V W) → ReadyHasTransport x → ReadyHasTransport (update_session x)
  unfolding ReadyHasTransport update_session
  update_session-ReadyHasTransport x h = h

  pub ready_with_port :
      (f : FirehoseClient) (w : W) (x : JobExecutor V W)
      → ReadyHasTransport (record x { firehose = f; transport = some w; state = ready })
  unfolding ReadyHasTransport
  ready_with_port f w x is_ready = refl

pub new_not_ready :
    (V W : Type 0) (config : ExecutorConfig) (v : V)
    → ReadyHasTransport (JobExecutor_new {V = V} {W = W} config v)
unfolding ReadyHasTransport
new_not_ready V W config v is_ready = absurd (disconnected_not_ready is_ready)
