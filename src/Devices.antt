-- ===== src/Devices.antt =====
-- internal/devices/identity.go: the transaction by which an address that was seen is given to a device,
-- and the merge of two devices that share an identifier. Times, and the tables of queries and of UniFi
-- clients, are left out. An identifier of a device is a number from 1.
pub mod Protection
pub mod Observe
mod Examples
use faro.Prelude.{
  nat_eq, ℕ, ◌+◌, Bool, true, false, not, ◌&&◌, ◌||◌, List, [], ◌∷◌, ◌++◌, Option, none, some,
  if◌then◌else◌, ◌==◌, Result, ok, err, ◌>>=◌, filterb, is_some,
}
use faro.Strings.{Bytes, bytes_eq, codes, trim_space, to_lower}
use faro.Policy.{DeviceAddress, Membership, Pause}
use faro.Policy.Explain.{device_of}

pub record Device : Type 0 where
  pub id : ℕ
  pub name : Bytes
  pub location : Bytes
  pub notes : Bytes
  pub confirmed : Bool

pub record Identifier : Type 0 where
  pub kind : Bytes
  pub value : Bytes
  pub source : Bytes
  pub confidence : Bytes

-- `device_identifiers`.
pub record IdentifierRow : Type 0 where
  pub device_id : ℕ
  pub identifier : Identifier

-- `device_names`.
pub record DeviceName : Type 0 where
  pub device_id : ℕ
  pub source : Bytes
  pub name : Bytes

-- `next_id` is what AUTOINCREMENT gives next.
pub record DeviceTables : Type 0 where
  pub next_id : ℕ
  pub devices : List Device
  pub addresses : List DeviceAddress
  pub memberships : List Membership
  pub identifiers : List IdentifierRow
  pub names : List DeviceName
  pub pauses : List Pause

-- `sql.ErrNoRows`: the error rolls the transaction back.
pub data IdentityError : Type 0 where
  no_rows : IdentityError

pub record DeviceFields : Type 0 where
  pub name : Bytes
  pub location : Bytes
  pub notes : Bytes
  pub confirmed : Bool
  pub protection : Option ℕ

unfoldable pub find_device : ℕ → List Device → Option Device
find_device device [] = none
find_device device (d ∷ l) = if d.id == device then some d else find_device device l

unfoldable pub protection_of : List Membership → ℕ → Option ℕ
protection_of [] device = none
protection_of (m ∷ l) device =
    if m.device_id == device then some m.protection_id else protection_of l device

unfoldable pub read_device_fields : DeviceTables → ℕ → Result IdentityError DeviceFields
unfolding find_device protection_of
read_device_fields s device = elim (find_device device s.devices) [
  | none ↦ err no_rows
  | some d ↦ ok (record {
    name = d.name;
    location = d.location;
    notes = d.notes;
    confirmed = d.confirmed;
    protection = protection_of s.memberships device;
  })
]

-- Two protections that are both set differ.
abbrev pub protections_differ : Option ℕ → Option ℕ → Bool
protections_differ none q = false
protections_differ (some p) none = false
protections_differ (some p) (some q) = not (p == q)

unfoldable pub can_merge_devices : DeviceFields → DeviceFields → Bool
unfolding trim_space to_lower
can_merge_devices target source =
    if target.confirmed
      && source.confirmed
      && not (trim_space target.name == [])
      && not (to_lower target.name == to_lower source.name)
    then false
    else not (protections_differ target.protection source.protection)

unfoldable pub merge_protection : ℕ → Option ℕ → Option ℕ → List Membership → List Membership
merge_protection device (some p) q l = l
merge_protection device none none l = l
merge_protection device none (some q) l = record { device_id = device; protection_id = q } ∷ l

-- `CASE WHEN TRIM(name) = '' THEN ? ELSE name END`; NULL is the empty text.
abbrev pub or_text : Bytes → Bytes → Bytes
unfolding trim_space
or_text old new = if trim_space old == [] then new else old

unfoldable pub merge_fields : ℕ → DeviceFields → List Device → List Device
unfolding or_text trim_space
merge_fields target f [] = []
merge_fields target f (d ∷ l) =
    let rest = merge_fields target f l in
    if d.id == target
    then record d {
      name = or_text d.name f.name;
      location = or_text d.location f.location;
      notes = or_text d.notes f.notes;
      confirmed = d.confirmed || f.confirmed;
    }
      ∷ rest
    else d ∷ rest

unfoldable pub move_addresses : ℕ → ℕ → List DeviceAddress → List DeviceAddress
move_addresses target source [] = []
move_addresses target source (a ∷ l) =
    let rest = move_addresses target source l in
    if a.device_id == source then record a { device_id = target } ∷ rest else a ∷ rest

unfoldable pub find_identifier : Bytes → Bytes → List IdentifierRow → Option ℕ
find_identifier kind value [] = none
find_identifier kind value (r ∷ l) =
    if r.identifier.kind == kind && r.identifier.value == value
    then some r.device_id
    else find_identifier kind value l

-- The device has such an identifier.
unfoldable pub has_identifier : ℕ → Identifier → List IdentifierRow → Bool
has_identifier device i [] = false
has_identifier device i (r ∷ l) =
    r.device_id == device && r.identifier.kind == i.kind && r.identifier.value == i.value
    || has_identifier device i l

unfoldable pub move_identifiers :
    ℕ → ℕ → List IdentifierRow → List IdentifierRow → List IdentifierRow
unfolding has_identifier
move_identifiers target source all [] = []
move_identifiers target source all (r ∷ l) =
    let rest = move_identifiers target source all l in
    if not (r.device_id == source)
    then r ∷ rest
    else if has_identifier target r.identifier all
    then rest
    else record r { device_id = target } ∷ rest

-- The device has a name from the source.
unfoldable pub has_name : ℕ → Bytes → List DeviceName → Bool
has_name device source [] = false
has_name device source (n ∷ l) =
    n.device_id == device && n.source == source || has_name device source l

unfoldable pub move_names : ℕ → ℕ → List DeviceName → List DeviceName → List DeviceName
unfolding has_name
move_names target source all [] = []
move_names target source all (n ∷ l) =
    let rest = move_names target source all l in
    if not (n.device_id == source)
    then n ∷ rest
    else if has_name target n.source all
    then rest
    else record n { device_id = target } ∷ rest

unfoldable pub drop_memberships : ℕ → List Membership → List Membership
drop_memberships source [] = []
drop_memberships source (m ∷ l) =
    let rest = drop_memberships source l in if m.device_id == source then rest else m ∷ rest

-- The last statement deletes the device, and by the schema its pause with it.
unfoldable pub merge_device_data : DeviceTables → ℕ → ℕ → DeviceFields → DeviceTables
unfolding merge_fields move_addresses move_identifiers move_names drop_memberships
merge_device_data s target source f = record s {
  devices = filterb (λ d. not (d.id == source)) (merge_fields target f s.devices);
  addresses = move_addresses target source s.addresses;
  memberships = drop_memberships source s.memberships;
  identifiers = move_identifiers target source s.identifiers s.identifiers;
  names = move_names target source s.names s.names;
  pauses = filterb (λ p. not (p.device_id == source)) s.pauses;
}

unfoldable pub merge_devices : DeviceTables → ℕ → ℕ → DeviceFields → DeviceFields → DeviceTables
unfolding merge_protection merge_device_data
merge_devices s target source t f =
    let l = merge_protection target t.protection f.protection s.memberships in
    merge_device_data (record s { memberships = l }) target source f

unfoldable pub safe_merge : DeviceTables → ℕ → ℕ → Result IdentityError (Bool × DeviceTables)
unfolding read_device_fields can_merge_devices merge_devices
safe_merge s target source =
    if target == source
    then ok (true, s)
    else read_device_fields s target >>= (λ t. read_device_fields s source >>= (λ f.
      ok (if can_merge_devices t f then (true, merge_devices s target source t f) else (false, s))))

-- `INSERT ... ON CONFLICT(kind, value) DO UPDATE` of the times.
unfoldable pub store_identifier : DeviceTables → ℕ → Identifier → DeviceTables
unfolding find_identifier
store_identifier s device i =
    if is_some (find_identifier i.kind i.value s.identifiers) then s else record s {
      identifiers = s.identifiers ++ record { device_id = device; identifier = i } ∷ [];
    }

abbrev pub normal_identifier : Identifier → Identifier
unfolding trim_space to_lower
normal_identifier i = record i {
  kind = to_lower (trim_space i.kind);
  value = to_lower (trim_space i.value);
  confidence = if i.confidence == [] then codes "observed" else i.confidence;
}

-- The device has the identifier, or it is another's.
unfoldable pub observe_known :
    DeviceTables → ℕ → Identifier → ℕ → Result IdentityError (ℕ × DeviceTables)
unfolding safe_merge store_identifier
observe_known s device i existing =
    if existing == device
    then ok (device, store_identifier s device i)
    else safe_merge s existing device
      >>= (λ r. ok (if r.0 then (existing, store_identifier r.1 existing i) else (device, r.1)))

unfoldable pub observe_identifier :
    DeviceTables → ℕ → Identifier → Result IdentityError (ℕ × DeviceTables)
unfolding observe_known store_identifier find_identifier normal_identifier trim_space to_lower
observe_identifier s device raw =
    let i = normal_identifier raw in
    if i.kind == [] || i.value == []
    then ok (device, s)
    else elim (find_identifier i.kind i.value s.identifiers) [
      | none ↦ ok (device, store_identifier s device i)
      | some existing ↦ observe_known s device i existing
    ]

unfoldable pub observe_identifiers :
    DeviceTables → ℕ → List Identifier → Result IdentityError (ℕ × DeviceTables)
unfolding observe_identifier
observe_identifiers s device [] = ok (device, s)
observe_identifiers s device (i ∷ l) =
    observe_identifier s device i >>= (λ r. observe_identifiers r.1 r.0 l)

abbrev pub found_is : ℕ → Option ℕ → Bool
found_is candidate none = false
found_is candidate (some device) = device == candidate

-- The device that the identifiers name, and whether they name two.
unfoldable pub device_for_identifiers :
    List IdentifierRow → List Identifier → Option ℕ → Option ℕ × Bool
unfolding find_identifier
device_for_identifiers rows [] found = (found, false)
device_for_identifiers rows (i ∷ l) found = elim (find_identifier i.kind i.value rows) [
  | none ↦ device_for_identifiers rows l found
  | some candidate ↦
      if is_some found && not (found_is candidate found)
      then (none, true)
      else device_for_identifiers rows l (some candidate)
]

-- The device of a new address: the one that the identifiers name, else a new one.
unfoldable pub create_address : DeviceTables → Bytes → Option ℕ → ℕ × DeviceTables
create_address s address (some device) = (
  device,
  record s { addresses = s.addresses ++ record { device_id = device; address = address } ∷ [] },
)
create_address s address none = (
  s.next_id,
  record s {
    next_id = s.next_id + 1;
    devices =
        s.devices
        ++ record { id = s.next_id; name = []; location = []; notes = []; confirmed = false } ∷ [];
    addresses = s.addresses ++ record { device_id = s.next_id; address = address } ∷ [];
  },
)

unfoldable pub device_for_address : DeviceTables → Bytes → Option ℕ → ℕ × DeviceTables
unfolding create_address device_of
device_for_address s address matched = elim (device_of s.addresses address) [
  | some device ↦ (device, s)
  | none ↦ create_address s address matched
]

-- The transaction of `ObserveAddress`, on an address and identifiers in normal form.
unfoldable pub observe_address :
    DeviceTables → Bytes → List Identifier → Result IdentityError (ℕ × DeviceTables)
unfolding device_for_identifiers device_for_address observe_identifiers
observe_address s address identifiers =
    let (matched, conflicting) = device_for_identifiers s.identifiers identifiers none in
    let (device, s1) = device_for_address s address matched in
    if conflicting then ok (device, s1) else observe_identifiers s1 device identifiers
