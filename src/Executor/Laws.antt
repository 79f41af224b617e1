-- ===== src/Executor/Laws.antt =====
-- qedl-job/src/executor.rs: what the calls of the executor return.
use mathlib.Core.Path.{subst}
use qedl_rs.Prelude.{
  ℕ, ◌≡◌, ◌≢◌, sym, ap, ◌∙◌, Option, none, some, List, length, Outcome, ok, err, panic, hang, ◌⊎◌,
  inl, inr, match_option,
}
use qedl_rs.Prelude.Bytes.{Bytes}
use qedl_rs.Prelude.Words.{mul64}
use qedl_rs.Text.{Text}
use qedl_rs.Transport.Port.{Act, Transport}
use qedl_rs.Transport.Port.Laws.{and_then-eq-ok, ok_pair_state, err_not_ok, IsTransport}
use qedl_rs.Transport.Device.{TransportError, Host, switch_diag_to_edl}
use qedl_rs.Firehose.Response.{XmlEvent}
use qedl_rs.Firehose.Client.{Link}
use qedl_rs.Firehose.Client.Sectors.{read_sectors}
use qedl_rs.Firehose.Client.Reads.{length-read_sectors}
use qedl_rs.Job.Context.{JobError, firehose, transport}
use qedl_rs.Executor.{diag_mode, JobExecutor, map_err, with_port, with_link, with_host}
use qedl_rs.Executor.Connect.{
  find_device, switch, connect_to, connect, open_device, executor_handshake, init,
}
use qedl_rs.Executor.Device.{kept, device_read, executor_context}

-- The branch of a `match` whose option is known.
match_none :
    {A R : Type 0} (o : Option A) (m : R) (f : A → R) {r : R}
    → o ≡ none
    → match_option o m f ≡ r
    → m ≡ r
match_none none m f h e = e
match_none (some a) m f h e = cc

match_run :
    {A R : Type 0} (o : Option A) (m : R) (f : A → R) {r : R}
    → match_option o m f ≡ r
    → (m ≡ r) ⊎ ((a : A) × (f a ≡ r))
match_run none m f e = inl e
match_run (some a) m f e = inr (a, e)

pub map_err-eq-ok :
    {E F A : Type 0} (f : E → F) (o : Outcome E A) {a : A} → map_err f o ≡ ok a → o ≡ ok a
map_err-eq-ok f (ok b) h = cc h
map_err-eq-ok f (err e) h = cc
map_err-eq-ok f panic h = cc
map_err-eq-ok f hang h = cc

kept-eq-ok :
    {E A X : Type 0} (run : Outcome E A × X) {a : A} {x : X}
    → kept run ≡ ok (a, x)
    → run ≡ (ok a, x)
kept-eq-ok (ok b, y) h = cc h
kept-eq-ok (err e, y) h = cc
kept-eq-ok (panic, y) h = cc
kept-eq-ok (hang, y) h = cc

module _ {V W : Type 0} where
  with_host-eq-ok :
      {A : Type 0} (run : Outcome TransportError A × V) (x y : JobExecutor V W) (a : A)
      → ◌≡◌ {A = Outcome JobError A × JobExecutor V W}
          (map_err (λ e. transport) run.0, record x { host = run.1 })
          (ok a, y)
      → y.device ≡ x.device
  with_host-eq-ok run x y a h = sym (ap (λ z. z.device) (ok_pair_state _ h))

module _ {V W : Type 0} (host : Host V) (open_port : Text → ℕ → ℕ → Act V TransportError W)
    (t : Transport W) (xml_events : Text → List XmlEvent) (fuel : ℕ) where
  open_device-none :
      (x y : JobExecutor V W) (w : W)
      → x.device ≡ none
      → open_device host open_port t xml_events fuel x ≡ (ok w, y)
      → ⊥
  unfolding open_device
  open_device-none x y w no_device h = err_not_ok (match_none x.device _ _ no_device h)

  -- With the mode set to DIAG and no device known, `init` never succeeds: `connect` switches the
  -- device and does not keep it, so the handshake has no port to open.
  pub init-diag_mode :
      (x y : JobExecutor V W)
      → x.config.force_mode ≡ diag_mode
      → x.device ≡ none
      → init host open_port t xml_events fuel x ≢ (ok tt, y)
  unfolding init connect connect_to switch with_host executor_handshake
  init-diag_mode x y diag_only no_device h =
      let (a, x1, connected, next) =
        and_then-eq-ok (connect host open_port t xml_events fuel x) _ h in
      let found = find_device host open_port t xml_events fuel x.config.port x.config.serial in
      let (device, x0, chose, switching) = and_then-eq-ok (with_host found x) _ connected in
      let on_diag =
        subst (λ mode. connect_to host open_port t xml_events fuel mode device x0 ≡ (ok a, x1))
          diag_only switching in
      let run = switch_diag_to_edl host fuel device.port x0.config.timeout x0.host in
      let still_none : x1.device ≡ none =
        with_host-eq-ok run x0 x1 a on_diag
        ∙ with_host-eq-ok (found x.host) x x0 device chose
        ∙ no_device in
      let (b, x2, shook, rest) =
        and_then-eq-ok (executor_handshake host open_port t xml_events fuel x1) _ next in
      let (w, x3, opened, last) =
        and_then-eq-ok (open_device host open_port t xml_events fuel x1) _ shook in
      open_device-none x1 x3 w still_none opened

module _ {V W : Type 0} (t : Transport W) (reads : IsTransport t)
    (xml_events : Text → List XmlEvent) (fuel : ℕ) where
  -- What the context of a job reads has as many bytes as the sectors asked for, of the size that the
  -- context tells, modulo the width of the product.
  pub length-executor_context :
      (lun start count : ℕ) (x y : JobExecutor V W) (bytes : Bytes)
      → (executor_context {V = V} t xml_events fuel).read_sectors lun start count x ≡ ok (bytes, y)
      → length bytes ≡ mul64 count ((executor_context {V = V} t xml_events fuel).sector_size x)
  unfolding executor_context device_read with_link with_port
  length-executor_context lun start count x y bytes h =
      elim (match_run x.transport _ _ (kept-eq-ok _ h)) [
        | inl no_port ↦ absurd (err_not_ok no_port)
        | inr (w, run) ↦
            let s : Link W = record { client = x.firehose; port = w } in
            let reading = read_sectors t xml_events fuel lun start count s in
            let returned : reading.0 ≡ ok bytes =
              map_err-eq-ok (λ e. firehose) reading.0 (ap (λ z. z.0) run) in
            length-read_sectors t reads xml_events fuel lun start count bytes s reading.1
              (ap (λ z. (z, reading.1)) returned)
      ]
