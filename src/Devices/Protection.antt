-- ===== src/Devices/Protection.antt =====
-- internal/devices/identity.go: what an observation keeps of the protections of addresses.
use faro.Prelude.{
  nat_eq, ℕ, ◌≡◌, ◌⊎◌, refl, sym, ap, subst, ◌∙◌, true, false, List, [], ◌∷◌, Option, none, some,
  inl, inr, ◌==◌, arith, Bool-cases, Option-cases, Result-cases, ok, if◌then◌else◌,
}
use faro.Strings.{Bytes, bytes_eq}
use faro.Policy.{DeviceAddress, Membership}
use faro.Policy.Explain.{device_of}
use faro.Devices.{
  DeviceTables, Identifier, DeviceFields, protection_of, protections_differ, read_device_fields,
  can_merge_devices, merge_protection, move_addresses, drop_memberships, merge_devices,
  merge_device_data, safe_merge, store_identifier, find_device,
}

-- The protection that the device of an address has been given.
unfoldable pub protection_at : DeviceTables → Bytes → Option ℕ
unfolding device_of protection_of
protection_at s a = elim (device_of s.addresses a) [
  | none ↦ none
  | some device ↦ protection_of s.memberships device
]

-- The device after `source` has become `target`.
abbrev moved_to : ℕ → ℕ → Option ℕ → Option ℕ
moved_to target source none = none
moved_to target source (some d) = if d == source then some target else some d

device_of-move_addresses :
    (target source : ℕ) (a : Bytes) (l : List DeviceAddress)
    → device_of (move_addresses target source l) a ≡ moved_to target source (device_of l a)
unfolding device_of move_addresses
device_of-move_addresses target source a [] = refl
device_of-move_addresses target source a (r ∷ l) =
    ground (arith, device_of-move_addresses target source a l)

protection_of-drop_memberships :
    (source d : ℕ) (l : List Membership)
    → (d == source) ≡ false
    → protection_of (drop_memberships source l) d ≡ protection_of l d
unfolding protection_of drop_memberships
protection_of-drop_memberships source d [] h = refl
protection_of-drop_memberships source d (m ∷ l) h =
    ground (arith, protection_of-drop_memberships source d l h)

protection_of-merge_protection :
    (target d : ℕ) (q : Option ℕ) (l : List Membership)
    → (d == target) ≡ false
    → protection_of (merge_protection target (protection_of l target) q l) d ≡ protection_of l d
unfolding protection_of merge_protection
protection_of-merge_protection target d q l h = ground arith

-- Where two protections do not differ, the target has after the merge what either had.
merge_protection-target :
    (target p : ℕ) (q : Option ℕ) (l : List Membership)
    → protections_differ (protection_of l target) q ≡ false
    → (protection_of l target ≡ some p) ⊎ (q ≡ some p)
    → protection_of (merge_protection target (protection_of l target) q l) target ≡ some p
unfolding protection_of merge_protection
merge_protection-target target p q l h e = elim (Option-cases (protection_of l target)) [
  | inr (r, known) ↦ elim (Option-cases q) [
    | inr (r2, known2) ↦ ground arith
    | inl none2 ↦ ground arith
  ]
  | inl none1 ↦ elim (Option-cases q) [ inr (r2, known2) ↦ ground arith | inl none2 ↦ ground arith ]
]

read_device_fields-protection :
    (s : DeviceTables) (device : ℕ) (f : DeviceFields)
    → read_device_fields s device ≡ ok f
    → f.protection ≡ protection_of s.memberships device
unfolding read_device_fields
read_device_fields-protection s device f h = elim (Option-cases (find_device device s.devices)) [
  | inl missing ↦ ground arith
  | inr (d, found) ↦ ground arith
]

-- The protection of a device that the merge keeps.
kept_protection :
    (target source : ℕ) (l : List Membership) (d p : ℕ)
    → (target == source) ≡ false
    → protections_differ (protection_of l target) (protection_of l source) ≡ false
    → protection_of l d ≡ some p
    → (device : ℕ) → moved_to target source (some d) ≡ some device
    → protection_of
        (drop_memberships source
          (merge_protection target (protection_of l target) (protection_of l source) l))
        device
      ≡ some p
kept_protection target source l d p apart same h device moved =
    let after = merge_protection target (protection_of l target) (protection_of l source) l in
    elim (Bool-cases (d == source)) [
      | inl y ↦
          let now : device ≡ target = ground arith in
          let here : d ≡ source = ground arith in
          let held : protection_of l source ≡ some p = ap (protection_of l) (sym here) ∙ h in
          protection_of-drop_memberships source device after (ground arith)
          ∙ ap (protection_of after) now
          ∙ merge_protection-target target p (protection_of l source) l same (inr held)
      | inr n ↦
          let now : device ≡ d = ground arith in
          protection_of-drop_memberships source device after (ground arith)
          ∙ ap (protection_of after) now
          ∙ elim (Bool-cases (d == target)) [
            | inl y ↦
                let here : d ≡ target = ground arith in
                ap (protection_of after) here
                ∙ merge_protection-target target p (protection_of l source) l same
                    (inl (ap (protection_of l) (sym here) ∙ h))
            | inr m ↦ protection_of-merge_protection target d (protection_of l source) l m ∙ h
          ]
    ]

protection_at-merge_devices :
    (s : DeviceTables) (target source : ℕ) (t f : DeviceFields)
    → (target == source) ≡ false
    → read_device_fields s target ≡ ok t
    → read_device_fields s source ≡ ok f
    → can_merge_devices t f ≡ true
    → (a : Bytes) (p : ℕ) → protection_at s a ≡ some p
    → protection_at (merge_devices s target source t f) a ≡ some p
unfolding protection_at merge_devices merge_device_data can_merge_devices
protection_at-merge_devices s target source t f apart ht hf can a p h =
    let pt = read_device_fields-protection s target t ht in
    let pf = read_device_fields-protection s source f hf in
    let agree : protections_differ t.protection f.protection ≡ false = ground (arith, can) in
    let same : protections_differ (protection_of s.memberships target)
          (protection_of s.memberships source)
        ≡ false =
      subst (λ x. protections_differ x (protection_of s.memberships source) ≡ false) pt
        (subst (λ y. protections_differ t.protection y ≡ false) pf agree) in
    let step = device_of-move_addresses target source a s.addresses in
    elim (Option-cases (device_of s.addresses a)) [
      | inl missing ↦ absurd (ground arith)
      | inr (d, found) ↦
          let device = if d == source then target else d in
          let moved : moved_to target source (some d) ≡ some device = ground arith in
          let place : device_of (move_addresses target source s.addresses) a ≡ some device =
            step ∙ ap (moved_to target source) found ∙ moved in
          let owner : protection_of s.memberships d ≡ some p = ground (arith, h, found) in
          let kept =
            kept_protection target source s.memberships d p apart same owner device moved in
          let written : protection_of
                (drop_memberships source
                  (merge_protection target t.protection f.protection s.memberships))
                device
              ≡ some p =
            subst
              (λ x.
                protection_of
                  (drop_memberships source (merge_protection target x f.protection s.memberships))
                  device
                ≡ some p)
              (sym pt)
              (subst
                (λ y.
                  protection_of
                    (drop_memberships source (
                      merge_protection target (protection_of s.memberships target) y s.memberships))
                    device
                  ≡ some p)
                (sym pf) kept) in
          ground (arith, place, written)
    ]

-- What an observation does to a store: the device `d` of `address` is now `d'`, and every address that
-- had a protection has it still.
abbrev pub IsSafe : DeviceTables → ℕ → ℕ → DeviceTables → Type 0
IsSafe s d d' s' =
    ((address : Bytes)
      → device_of s.addresses address ≡ some d
      → device_of s'.addresses address ≡ some d')
    × ((a : Bytes) (p : ℕ) → protection_at s a ≡ some p → protection_at s' a ≡ some p)

pub IsSafe-refl : (s : DeviceTables) (d : ℕ) → IsSafe s d d s
IsSafe-refl s d = ((λ a h. h), (λ a p h. h))

-- Stores with the same addresses and memberships.
abbrev pub SamePlaces : DeviceTables → DeviceTables → Type 0
SamePlaces s t = (t.addresses ≡ s.addresses) × (t.memberships ≡ s.memberships)

protection_at-SamePlaces :
    (s t : DeviceTables) (a : Bytes) → SamePlaces s t → protection_at t a ≡ protection_at s a
unfolding protection_at
protection_at-SamePlaces s t a h = ground (arith, ap (λ l. device_of l a) h.0, h.1)

pub IsSafe-SamePlaces :
    (s t u : DeviceTables) (d d' : ℕ) → IsSafe s d d' t → SamePlaces t u → IsSafe s d d' u
IsSafe-SamePlaces s t u d d' h same = (
  (λ a e. ap (λ l. device_of l a) same.0 ∙ h.0 a e),
  (λ a p e. protection_at-SamePlaces t u a same ∙ h.1 a p e),
)

pub store_identifier-SamePlaces :
    (s : DeviceTables) (device : ℕ) (i : Identifier) → SamePlaces s (store_identifier s device i)
unfolding store_identifier
store_identifier-SamePlaces s device i = (ground arith, ground arith)

merge_devices-place :
    (s : DeviceTables) (target source : ℕ) (t f : DeviceFields) (a : Bytes)
    → device_of s.addresses a ≡ some source
    → device_of (merge_devices s target source t f).addresses a ≡ some target
unfolding merge_devices merge_device_data
merge_devices-place s target source t f a h =
    ground (arith, device_of-move_addresses target source a s.addresses)

pub safe_merge-IsSafe :
    (s s' : DeviceTables) (target source : ℕ)
    → safe_merge s target source ≡ ok (true, s')
    → IsSafe s source target s'
unfolding safe_merge
safe_merge-IsSafe s s' target source h = elim (Bool-cases (target == source)) [
  | inl y ↦
      let one : source ≡ target = ground arith in
      let same : s ≡ s' = ground arith in
      subst (λ x. IsSafe s source target x) same
        (subst (λ d. IsSafe s source d s) one (IsSafe-refl s source))
  | inr apart ↦ elim (Result-cases (read_device_fields s target)) [
    | inr (e, ht) ↦ absurd (ground arith)
    | inl (t, ht) ↦ elim (Result-cases (read_device_fields s source)) [
      | inr (e, hf) ↦ absurd (ground arith)
      | inl (f, hf) ↦ elim (Bool-cases (can_merge_devices t f)) [
        | inr refused ↦ absurd (ground arith)
        | inl can ↦
            let same : merge_devices s target source t f ≡ s' = ground arith in
            subst (λ x. IsSafe s source target x) same
              (
                (λ a e. merge_devices-place s target source t f a e),
                (λ a p e. protection_at-merge_devices s target source t f apart ht hf can a p e),
              )
      ]
    ]
  ]
]

pub safe_merge-refused :
    (s s' : DeviceTables) (target source : ℕ) → safe_merge s target source ≡ ok (false, s') → s ≡ s'
unfolding safe_merge
safe_merge-refused s s' target source h = elim (Bool-cases (target == source)) [
  | inl y ↦ absurd (ground arith)
  | inr apart ↦ elim (Result-cases (read_device_fields s target)) [
    | inr (e, ht) ↦ absurd (ground arith)
    | inl (t, ht) ↦ elim (Result-cases (read_device_fields s source)) [
      | inr (e, hf) ↦ absurd (ground arith)
      | inl (f, hf) ↦ elim (Bool-cases (can_merge_devices t f)) [
        | inr refused ↦ ground arith
        | inl can ↦ absurd (ground arith)
      ]
    ]
  ]
]
