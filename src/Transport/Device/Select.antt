-- ===== src/Transport/Device/Select.antt =====
-- qedl-transport/src/device.rs: which device `auto_select` chooses.
use mathlib.Core.Path.{subst}
use qedl_rs.Prelude.{
  ◌≤◌, ◌≡◌, refl, sym, ap, ◌∙◌, arith, Bool, true, false, Option, none, some, List, [], ◌∷◌, ◌++◌,
  All, length, length-append, ◌⊎◌, inl, inr, Bool-cases, ok, match_option, if-eq_of_true,
  if-eq_of_false,
}
use qedl_rs.Prelude.Bytes.{All-append}
use qedl_rs.Text.{lit}
use qedl_rs.Transport.Device.{
  DeviceInfo, is_9008, is_diag, serial_eq, filter, any, find, distinct, Group, push_group,
  group_by_serial, described, select_diag_port, select_group, select_edl, select_of,
}

abbrev pub Among : DeviceInfo → List DeviceInfo → Type 0
Among d [] = ⊥
Among d (e ∷ es) = (d ≡ e) ⊎ Among d es

module _ (P : DeviceInfo → Type 0) where
  filter-All :
      (p : DeviceInfo → Bool) (ds : List DeviceInfo)
      → All P ds
      → All (λ d. P d × (p d ≡ true)) (filter p ds)
  filter-All p [] h = tt
  filter-All p (d ∷ ds) h = elim (Bool-cases (p d)) [
    | inl yes_p ↦ rw yes_p ((h.0, yes_p), filter-All p ds h.1)
    | inr no_p ↦ rw no_p (filter-All p ds h.1)
  ]

  distinct-All : (acc ds : List DeviceInfo) → All P acc → All P ds → All P (distinct acc ds)
  unfolding distinct
  distinct-All acc [] h k = h
  distinct-All acc (d ∷ ds) h k =
      elim (Bool-cases
        (match_option d.serial false (λ s. any (λ e. serial_eq e.serial d.serial) acc))) [
          | inl known ↦ rw known (distinct-All acc ds h k.1)
          | inr new ↦
              rw new (distinct-All (acc ++ (d ∷ [])) ds (All-append P acc (d ∷ []) h (k.0, tt)) k.1)
        ]

  abbrev AllGroups : List Group → Type 0
  AllGroups [] = Unit {0}
  AllGroups ((d, ds) ∷ groups) = (P d × All P ds) × AllGroups groups

  push_group-AllGroups :
      (d : DeviceInfo) (groups : List Group)
      → P d
      → AllGroups groups
      → AllGroups (push_group d groups)
  unfolding push_group
  push_group-AllGroups d [] p h = ((p, tt), tt)
  push_group-AllGroups d ((e, es) ∷ groups) p h = elim (Bool-cases (serial_eq e.serial d.serial)) [
    | inl same ↦ rw same ((h.0.0, All-append P es (d ∷ []) h.0.1 (p, tt)), h.1)
    | inr other ↦ rw other (h.0, push_group-AllGroups d groups p h.1)
  ]

  group_by_serial-AllGroups :
      (groups : List Group) (ds : List DeviceInfo)
      → AllGroups groups
      → All P ds
      → AllGroups (group_by_serial groups ds)
  unfolding group_by_serial
  group_by_serial-AllGroups groups [] h k = h
  group_by_serial-AllGroups groups (d ∷ ds) h k =
      group_by_serial-AllGroups (push_group d groups) ds (push_group-AllGroups d groups k.0 h) k.1

  -- What is found, or else a default, has the property of all.
  found :
      (p : DeviceInfo → Bool) (ds : List DeviceInfo) (default : DeviceInfo)
      → All P ds
      → P default
      → P (match_option (find p ds) default (λ e. e))
  found p [] default h k = k
  found p (d ∷ ds) default h k = elim (Bool-cases (p d)) [
    | inl yes_p ↦ rw yes_p (h.0)
    | inr no_p ↦ rw no_p (found p ds default h.1 k)
  ]

  select_diag_port-P :
      (d : DeviceInfo) (ds : List DeviceInfo) → P d → All P ds → P (select_diag_port (d, ds))
  unfolding select_diag_port
  select_diag_port-P d ds p h =
      found (described (lit "MSM Diagnostics")) (d ∷ ds) _ (p, h)
        (found (described (lit "Diagnostics")) (d ∷ ds) _ (p, h)
          (found (described (lit "MDM Diagnostics")) (d ∷ ds) d (p, h) p))

  select_group-P :
      (groups : List Group) (d : DeviceInfo) → AllGroups groups → select_group groups ≡ ok d → P d
  unfolding select_group
  select_group-P [] d h e = cc e
  select_group-P ((g, gs) ∷ []) d h e =
      let same : select_diag_port (g, gs) ≡ d = cc e in
      subst P same (select_diag_port-P g gs h.0.0 h.0.1)
  select_group-P (g ∷ g' ∷ groups) d h e = cc e

  All-weaken :
      (Q : DeviceInfo → Type 0) (ds : List DeviceInfo)
      → ((d : DeviceInfo) → P d → Q d)
      → All P ds
      → All Q ds
  All-weaken Q [] f h = tt
  All-weaken Q (d ∷ ds) f h = (f d h.0, All-weaken Q ds f h.1)

All-Among : (ds : List DeviceInfo) → All (λ d. Among d ds) ds
All-Among [] = tt
All-Among (d ∷ ds) = (
  inl refl,
  All-weaken (λ e. Among e ds) (λ e. Among e (d ∷ ds)) ds (λ e h. inr h) (All-Among ds),
)

length-distinct : (acc ds : List DeviceInfo) → length acc ≤ length (distinct acc ds)
unfolding distinct
length-distinct acc [] = omega arith
length-distinct acc (d ∷ ds) =
    elim (Bool-cases
      (match_option d.serial false (λ s. any (λ e. serial_eq e.serial d.serial) acc))) [
        | inl known ↦ rw known (length-distinct acc ds)
        | inr new ↦
            rw new (omega (arith, length-distinct (acc ++ (d ∷ [])) ds, length-append acc (d ∷ [])))
      ]

never : {A : Type 0} (o : Option A) → match_option o false (λ a. false) ≡ false
never none = refl
never (some a) = refl

distinct_nil : (ds : List DeviceInfo) → distinct [] ds ≡ [] → ds ≡ []
unfolding distinct
distinct_nil [] h = refl
distinct_nil (d ∷ ds) h =
    let first : distinct [] (d ∷ ds) ≡ distinct (d ∷ []) ds = rw (never d.serial) refl in
    let lengths : length (distinct (d ∷ []) ds) ≡ 0 = ap length (sym first ∙ h) in
    absurd (omega (arith, lengths, length-distinct (d ∷ []) ds))

filter_nil : (p : DeviceInfo → Bool) (ds : List DeviceInfo) → filter p ds ≡ [] → any p ds ≡ false
filter_nil p [] h = refl
filter_nil p (d ∷ ds) h = elim (Bool-cases (p d)) [
  | inl yes_p ↦ absurd (cc (if-eq_of_true (p d) (d ∷ filter p ds) (filter p ds) yes_p h))
  | inr no_p ↦
      rw no_p (filter_nil p ds (if-eq_of_false (p d) (d ∷ filter p ds) (filter p ds) no_p h))
]

-- The cases on the devices in EDL mode.
chosen :
    (devices edl : List DeviceInfo) (d : DeviceInfo)
    → All (λ e. Among e devices × (is_9008 e ≡ true)) edl
    → (edl ≡ [] → any is_9008 devices ≡ false)
    → select_edl devices edl ≡ ok d
    → Among d devices × ((is_9008 d ≡ true) ⊎ ((any is_9008 devices ≡ false) × (is_diag d ≡ true)))
unfolding select_edl
chosen devices [] d all_edl no_edl h =
    let (listed, diag_mode) =
      select_group-P (λ e. Among e devices × (is_diag e ≡ true))
        (group_by_serial [] (filter is_diag devices)) d
        (group_by_serial-AllGroups (λ e. Among e devices × (is_diag e ≡ true)) []
          (filter is_diag devices) tt
          (filter-All (λ e. Among e devices) is_diag devices (All-Among devices)))
        h in
    (listed, inr (no_edl refl, diag_mode))
chosen devices (e ∷ []) d all_edl no_edl h =
    let same : e ≡ d = cc h in
    subst
      (λ z.
        Among z devices
        × ((is_9008 z ≡ true) ⊎ ((any is_9008 devices ≡ false) × (is_diag z ≡ true))))
      same (all_edl.0.0, inl all_edl.0.1)
chosen devices (e ∷ e' ∷ es) d all_edl no_edl h = cc h

-- The device that is chosen is one of those listed. It is in EDL mode, or no listed device is and
-- it is in DIAG mode.
pub select_of_prefers_edl :
    (devices : List DeviceInfo) (d : DeviceInfo)
    → select_of devices ≡ ok d
    → Among d devices × ((is_9008 d ≡ true) ⊎ ((any is_9008 devices ≡ false) × (is_diag d ≡ true)))
unfolding select_of
select_of_prefers_edl devices d h =
    let listed = All-Among devices in
    let edl =
      distinct-All (λ e. Among e devices × (is_9008 e ≡ true)) [] (filter is_9008 devices) tt
        (filter-All (λ e. Among e devices) is_9008 devices listed) in
    chosen devices (distinct [] (filter is_9008 devices)) d edl
      (λ empty. filter_nil is_9008 devices (distinct_nil (filter is_9008 devices) empty)) h
