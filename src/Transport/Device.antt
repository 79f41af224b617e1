-- ===== src/Transport/Device.antt =====
-- qedl-transport/src/device.rs and `DeviceInfo` of qedl-core/src/types.rs: the choice of a device,
-- and the switch of a device in DIAG mode to EDL.
pub mod Frame
pub mod Select
use qedl_rs.Prelude.{
  ℕ, zero, suc, ◌-◌, ◌/◌, Bool, true, false, not, ◌&&◌, ◌||◌, Option, none, some, List, [], ◌∷◌,
  ◌++◌, map, leb, ◌==◌, length, Outcome, ok, err, panic, hang, match_option, if◌then◌else◌,
}
use qedl_rs.Prelude.Bytes.{Bytes}
use qedl_rs.Text.{Text, lit, text_eq, contains}
use qedl_rs.Transport.Port.{Act, ◌>>=◌, ◌>>◌, ret, fail}
use qedl_rs.Transport.Device.Frame.{diag_frame}

pub data DeviceMode : Type 0 where
  edl diag modem nmea adb unknown : DeviceMode

pub record DeviceInfo : Type 0 where
  pub port : Text
  pub serial : Option Text
  pub product : Option Text
  pub pid : ℕ
  pub vid : ℕ
  pub description : Option Text
  pub mode : DeviceMode

pub data TransportError : Type 0 where
  not_found invalid_port transport_io : TransportError
  multiple_found : ℕ → TransportError

-- `QUALCOMM_VID`
abbrev pub qualcomm_vid : ℕ
qualcomm_vid = 0x05C6

abbrev one_of : ℕ → List ℕ → Bool
one_of n [] = false
one_of n (m ∷ ms) = m == n || one_of n ms

-- `DeviceInfo::is_9008`
unfoldable pub is_9008 : DeviceInfo → Bool
is_9008 d = elim (d.mode) [
  | edl ↦ true
  | unknown ↦ d.vid == qualcomm_vid && one_of d.pid (0x9008 ∷ 0x900E ∷ 0x900D ∷ [])
  | _ ↦ false
]

-- `DeviceInfo::is_diag`
unfoldable pub is_diag : DeviceInfo → Bool
is_diag d = elim (d.mode) [
  | diag ↦ true
  | unknown ↦ d.vid == qualcomm_vid && one_of d.pid (0x90B8 ∷ 0x9091 ∷ 0x90E8 ∷ [])
  | _ ↦ false
]

abbrev pub serial_eq : Option Text → Option Text → Bool
serial_eq none none = true
serial_eq none (some b) = false
serial_eq (some a) none = false
serial_eq (some a) (some b) = text_eq a b

abbrev pub filter : (DeviceInfo → Bool) → List DeviceInfo → List DeviceInfo
filter p [] = []
filter p (d ∷ ds) = if p d then d ∷ filter p ds else filter p ds

abbrev pub any : (DeviceInfo → Bool) → List DeviceInfo → Bool
any p [] = false
any p (d ∷ ds) = p d || any p ds

abbrev pub find : (DeviceInfo → Bool) → List DeviceInfo → Option DeviceInfo
find p [] = none
find p (d ∷ ds) = if p d then some d else find p ds

-- The `fold` of `auto_select`: one device for each serial number, and each without one.
unfoldable pub distinct : List DeviceInfo → List DeviceInfo → List DeviceInfo
distinct acc [] = acc
distinct acc (d ∷ ds) =
    let known = match_option d.serial false (λ s. any (λ e. serial_eq e.serial d.serial) acc) in
    distinct (if known then acc else acc ++ (d ∷ [])) ds

-- `entry(d.serial).or_default().push(d)`; each group is not empty: its first device, and the rest.
abbrev pub Group : Type 0
Group = DeviceInfo × List DeviceInfo

unfoldable pub push_group : DeviceInfo → List Group → List Group
push_group d [] = (d, []) ∷ []
push_group d ((e, es) ∷ groups) =
    let rest = push_group d groups in
    if serial_eq e.serial d.serial then (e, es ++ (d ∷ [])) ∷ groups else (e, es) ∷ rest

-- `group_by_serial`, in the order in which the serial numbers come up; the order of the map's values
-- does not matter to the caller, who looks at the only group or at their number.
unfoldable pub group_by_serial : List Group → List DeviceInfo → List Group
group_by_serial groups [] = groups
group_by_serial groups (d ∷ ds) = group_by_serial (push_group d groups) ds

abbrev described : Text → DeviceInfo → Bool
described name d = match_option d.description false (λ desc. contains desc name)

-- `select_diag_port`
unfoldable pub select_diag_port : Group → DeviceInfo
select_diag_port (d, ds) =
    match_option (find (described (lit "MSM Diagnostics")) (d ∷ ds))
      (match_option (find (described (lit "Diagnostics")) (d ∷ ds))
        (match_option (find (described (lit "MDM Diagnostics")) (d ∷ ds)) d (λ e. e)) (λ e. e))
      (λ e. e)

unfoldable pub select_group : List Group → Outcome TransportError DeviceInfo
select_group [] = err not_found
select_group (group ∷ []) = ok (select_diag_port group)
select_group (group ∷ other ∷ groups) = err (multiple_found (length (group ∷ other ∷ groups)))

unfoldable pub select_edl : List DeviceInfo → List DeviceInfo → Outcome TransportError DeviceInfo
select_edl devices [] = select_group (group_by_serial [] (filter is_diag devices))
select_edl devices (d ∷ []) = ok d
select_edl devices (d ∷ e ∷ ds) = err (multiple_found (length (d ∷ e ∷ ds)))

-- `auto_select`, of the devices that are listed
unfoldable pub select_of : List DeviceInfo → Outcome TransportError DeviceInfo
select_of devices = select_edl devices (distinct [] (filter is_9008 devices))

-- What the operating system does, over its state `V`: the lists of devices, the write of a packet to
-- a port at a baud rate, true if it went out, the clock in nanoseconds, and a sleep in milliseconds.
pub record Host (V : Type 0) : Type 0 where
  pub list : Act V TransportError (List DeviceInfo)
  pub list_all : Act V TransportError (List DeviceInfo)
  pub send : Text → ℕ → Bytes → V → Bool × V
  pub nanos : V → ℕ
  pub sleep : ℕ → V → V

-- `unwrap_or_default`
abbrev or_empty :
    Outcome TransportError (List DeviceInfo) → Outcome TransportError (List DeviceInfo)
or_empty (ok ds) = ok ds
or_empty (err e) = ok []
or_empty panic = panic
or_empty hang = hang

abbrev one_of_texts : Text → List Text → Bool
one_of_texts t [] = false
one_of_texts t (u ∷ us) = text_eq u t || one_of_texts t us

module _ {V : Type 0} (host : Host V) where
  unfoldable pub auto_select : Act V TransportError DeviceInfo
  auto_select = do devices ← host.list; λ v. (select_of devices, v)

  unfoldable pub find_by_port : Text → Act V TransportError DeviceInfo
  find_by_port port = do
    devices ← host.list_all
    match_option (find (λ d. text_eq d.port port) devices) (fail invalid_port) ret

  unfoldable pub find_by_serial : Text → Act V TransportError DeviceInfo
  find_by_serial serial = do
    devices ← host.list
    match_option (find (λ d. serial_eq d.serial (some serial)) devices) (fail not_found) ret

  -- What `wait_for_device` looks for.
  abbrev wanted : Option Text → Option Text → DeviceInfo → Bool
  wanted port serial d =
      match_option port true (λ p. text_eq d.port p)
      && (match_option serial true (λ s. serial_eq d.serial (some s))
          && (d.vid == qualcomm_vid && (is_9008 d || is_diag d)))

  -- The loop of `wait_for_device`, from the second `start` on.
  unfoldable pub wait_loop :
      ℕ → Option Text → Option Text → Option ℕ → ℕ → ℕ → Act V TransportError DeviceInfo
  wait_loop zero port serial timeout interval start = λ v. (hang, v)
  wait_loop (suc fuel) port serial timeout interval start = do
    devices ← host.list_all
    let rest = wait_loop fuel port serial timeout interval start
    match_option (find (wanted port serial) devices)
        (λ v.
          if match_option timeout false (λ limit. leb limit ((host.nanos v - start) / 1000000000))
          then (err not_found, v)
          else rest (host.sleep interval v))
        ret

  unfoldable pub wait_for_device :
      ℕ → Option Text → Option Text → Option ℕ → ℕ → Act V TransportError DeviceInfo
  wait_for_device fuel port serial timeout interval v =
      wait_loop fuel port serial timeout interval (host.nanos v) v

  -- The baud rates are tried in turn.
  unfoldable pub send_switch : Text → List ℕ → Act V TransportError (Unit {0})
  send_switch port [] v = (err transport_io, v)
  send_switch port (baud ∷ bauds) v =
      let sent = host.send port baud (diag_frame 0x4B (0x65 ∷ 0x01 ∷ 0x00 ∷ [])) v in
      if sent.0 then (ok tt, sent.1) else send_switch port bauds sent.1

  -- The loop that waits for a device in EDL mode on a port that had none.
  unfoldable pub reappear_loop : ℕ → List Text → ℕ → ℕ → Act V TransportError (Unit {0})
  reappear_loop zero preexisting timeout start = λ v. (hang, v)
  reappear_loop (suc fuel) preexisting timeout start = do
    devices ← host.list
    let rest = reappear_loop fuel preexisting timeout start
    if any (λ d. is_9008 d && not (one_of_texts d.port preexisting)) devices then ret tt else (λ v.
        if leb timeout ((host.nanos v - start) / 1000000000)
        then (err not_found, v)
        else rest (host.sleep 500 v))

  unfoldable pub switch_diag_to_edl : ℕ → Text → ℕ → Act V TransportError (Unit {0})
  switch_diag_to_edl fuel port timeout = do
    send_switch port (115200 ∷ 921600 ∷ [])
    before ← (λ v. let run = host.list v in (or_empty run.0, run.1))
    λ v. reappear_loop fuel (map (λ d. d.port) (filter is_9008 before)) timeout (host.nanos v) v
