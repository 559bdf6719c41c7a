-- ===== src/Devices/Observe.antt =====
-- internal/devices/identity.go: what the whole transaction of `ObserveAddress` keeps.
use faro.Prelude.{nat_eq, ℕ, ◌≡◌, some, Result, ok}
use faro.Strings.{Bytes, bytes_eq}
use faro.Policy.Explain.{device_of}
use faro.Devices.{DeviceTables, IdentityError}
use faro.Devices.Protection.{protection_at}

abbrev answer : ℕ → DeviceTables → Result IdentityError (ℕ × DeviceTables)
answer d t = ok (d, t)

-- The address has its device, and every address that had a protection has it still.
abbrev IsPlaced : DeviceTables → Bytes → ℕ × DeviceTables → Type 0
IsPlaced s address r =
    (device_of r.1.addresses address ≡ some r.0)
    × ((a : Bytes) (p : ℕ) → protection_at s a ≡ some p → protection_at r.1 a ≡ some p)
