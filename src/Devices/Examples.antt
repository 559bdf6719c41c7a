-- ===== src/Devices/Examples.antt =====
-- A telephone that is known by two addresses, as two devices, until one hardware address shows that they
-- are one.
use faro.Prelude.{nat_eq, ℕ, ◌≡◌, refl, false, [], ◌∷◌, ok}
use faro.Strings.{Bytes, bytes_beq, codes, trim_space, to_lower}
use faro.Policy.Explain.{device_of}
use faro.Devices.{DeviceTables, Device, Identifier, observe_address}

abbrev phone : Bytes
phone = codes "10.0.0.9"

abbrev phone6 : Bytes
phone6 = codes "fd00::9"

abbrev mac : Identifier
mac = record {
  kind = codes "mac";
  value = codes "aa:01";
  source = codes "neighbor_table";
  confidence = codes "strong";
}

abbrev nameless : ℕ → Device
nameless device = record { id = device; name = []; location = []; notes = []; confirmed = false }

-- The hardware address belongs to device 1; device 3 has protection 2 and is paused.
abbrev before : DeviceTables
before = record {
  next_id = 4;
  devices = nameless 1 ∷ nameless 3 ∷ [];
  addresses =
      record { device_id = 1; address = phone } ∷ record { device_id = 3; address = phone6 } ∷ [];
  memberships = record { device_id = 3; protection_id = 2 } ∷ [];
  identifiers = record { device_id = 1; identifier = mac } ∷ [];
  names = [];
  pauses = record { device_id = 3; paused_until = codes "2030-01-01T00:00:00Z" } ∷ [];
}

abbrev after : DeviceTables
after = record before {
  devices = nameless 1 ∷ [];
  addresses =
      record { device_id = 1; address = phone } ∷ record { device_id = 1; address = phone6 } ∷ [];
  memberships = record { device_id = 1; protection_id = 2 } ∷ [];
  pauses = [];
}

-- With another protection on device 1 the devices stay two.
abbrev apart : DeviceTables
apart = record before {
  memberships =
      record { device_id = 1; protection_id = 5 }
      ∷ record { device_id = 3; protection_id = 2 }
      ∷ [];
}

refused0 : observe_address apart phone6 (mac ∷ []) ≡ ok (3, apart)
unfolding observe_address bytes_beq trim_space to_lower device_of
refused0 = refl
