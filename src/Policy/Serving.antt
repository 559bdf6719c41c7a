-- ===== src/Policy/Serving.antt =====
-- internal/coredns/coredns.go: the protection that `ExplainDomainForClient` names, and the server block
-- that answers the client.
use faro.Prelude.{
  nat_eq, ℕ, ◌≡◌, Bool, false, ◌&&◌, ◌||◌, List, [], ◌∷◌, Option, none, some, ◌==◌, if◌then◌else◌,
}
use faro.Strings.{Bytes, bytes_eq, contains_string}
use faro.Policy.{Profile, DeviceAddress, Tables, Clock, any_row}
use faro.Policy.Explain.{device_of, is_member, is_assigned}
use faro.Policy.Render.{ProtectionRender, client_ips}

-- `address TEXT NOT NULL UNIQUE`
abbrev pub HasUniqueAddresses : List DeviceAddress → Type 0
HasUniqueAddresses [] = Unit
HasUniqueAddresses (a ∷ l) = (device_of l a.address ≡ none) × HasUniqueAddresses l

-- The first server block whose view holds for the client: the default has no view.
unfoldable pub serving : Bytes → List ProtectionRender → Option ProtectionRender
unfolding contains_string
serving client [] = none
serving client (r ∷ l) =
    if r.is_default || contains_string client r.client_ips then some r else serving client l

-- The client's address is in the list of the protection.
abbrev pub is_listed : Tables → Bytes → Profile → Bool
is_listed t client p = is_member t client p || is_assigned t client p

member_of : Tables → ℕ → Option ℕ → Bool
unfolding any_row
member_of t protection none = false
member_of t protection (some device) =
    any_row (λ m. m.protection_id == protection && m.device_id == device) t.memberships

module _ (t : Tables) (c : Clock) (client : Bytes) (u : HasUniqueAddresses t.addresses) where
  catches : Profile → Bool
  catches p = p.is_default || is_listed t client p
