-- ===== src/Policy.antt =====
-- internal/coredns/coredns.go: the DNS policy that the tables of the control plane describe. The
-- constraints of the schema that the queries rely on are those of internal/db/db.go: an address
-- belongs to one device, and a device to one protection.
pub mod Hosts
pub mod HostsFile
pub mod Blocks
pub mod Settings
pub mod Render
pub mod Explain
pub mod Temporal
pub mod Agreement
pub mod Serving
pub mod Limits
pub mod RuntimeFiles
mod Examples
use faro.Prelude.{
  nat_eq, ℕ, Bool, true, false, not, ◌&&◌, ◌||◌, List, [], ◌∷◌, Option, none, some, ltb,
  if◌then◌else◌, ◌==◌,
}
use faro.Strings.{Bytes, bytes_eq}
use faro.ProtectionTime.{Schedule, LocalTime, active_at, paused_at}

-- `protection_allow_entries` and `protection_block_entries`.
pub record Entry : Type 0 where
  pub id : ℕ
  pub protection_id : ℕ
  pub domain : Bytes

-- `troubleshooting_exceptions`.
pub record Trial : Type 0 where
  pub id : ℕ
  pub protection_id : ℕ
  pub domain : Bytes
  pub expires_at : Bytes

pub record Blocklist : Type 0 where
  pub id : ℕ
  pub name : Bytes
  pub enabled : Bool

pub record ListEntry : Type 0 where
  pub blocklist_id : ℕ
  pub domain : Bytes

-- `protection_blocklists`.
pub record ListChoice : Type 0 where
  pub protection_id : ℕ
  pub blocklist_id : ℕ

-- `protection_profiles`.
pub record Profile : Type 0 where
  pub id : ℕ
  pub name : Bytes
  pub is_default : Bool
  pub paused_until : Bytes
  pub schedule : Schedule

pub record DeviceAddress : Type 0 where
  pub device_id : ℕ
  pub address : Bytes

pub record Membership : Type 0 where
  pub device_id : ℕ
  pub protection_id : ℕ

-- `device_protection_assignments`.
pub record Assignment : Type 0 where
  pub client_ip : Bytes
  pub protection_id : ℕ

-- `device_dns_pauses`.
pub record Pause : Type 0 where
  pub device_id : ℕ
  pub paused_until : Bytes

-- `dns_records`.
pub record LocalRow : Type 0 where
  pub id : ℕ
  pub hostname : Bytes
  pub type : Bytes
  pub value : Bytes

-- Every table in the order of its ids.
pub record Tables : Type 0 where
  pub allows : List Entry
  pub blocks : List Entry
  pub trials : List Trial
  pub blocklists : List Blocklist
  pub list_entries : List ListEntry
  pub list_choices : List ListChoice
  pub profiles : List Profile
  pub addresses : List DeviceAddress
  pub memberships : List Membership
  pub assignments : List Assignment
  pub pauses : List Pause
  pub records : List LocalRow

-- The time of a call: `parsed` is `time.Parse` with RFC 3339, `local` the time in a named zone,
-- `julianday` the function of SQLite, `none` for NULL.
pub record Clock : Type 0 where
  pub now : ℕ
  pub parsed : Bytes → Option ℕ
  pub local : Bytes → Option LocalTime
  pub julianday : Bytes → Option ℕ

pub data RenderError : Type 0 where
  invalid_allow_domain invalid_block_domain invalid_record home_missing : RenderError
  too_many_upstreams invalid_upstream invalid_transport invalid_cidr : RenderError

-- `EXISTS (SELECT ... WHERE p)`.
unfoldable pub any_row {ℓ} : {A : Type ℓ} → (A → Bool) → List A → Bool
any_row p [] = false
any_row p (x ∷ l) = p x || any_row p l

-- The condition that makes a protection filter.
unfoldable pub is_active : Clock → Profile → Bool
is_active c p =
    not (paused_at c.parsed p.paused_until c.now)
    && active_at p.schedule (c.local p.schedule.timezone)

unfoldable pub is_unexpired : Clock → Trial → Bool
is_unexpired c t = elim (c.julianday t.expires_at) [ none ↦ false | some expiry ↦ ltb c.now expiry ]

-- The two joins of `blocklist_entries` with `blocklists` and `protection_blocklists`.
unfoldable pub is_chosen : Tables → ℕ → ℕ → Bool
unfolding any_row
is_chosen t protection blocklist =
    any_row (λ c. c.protection_id == protection && c.blocklist_id == blocklist) t.list_choices

unfoldable pub is_installed : Tables → ℕ → ListEntry → Bool
unfolding any_row is_chosen
is_installed t protection e =
    any_row (λ b. b.id == e.blocklist_id && b.enabled && is_chosen t protection b.id) t.blocklists
