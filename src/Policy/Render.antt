-- ===== src/Policy/Render.antt =====
-- internal/coredns/coredns.go: `render` and what it calls, and the file sets of
-- internal/coredns/diagnostics.go. The templates are written out as the text they give.
use faro.Prelude.{
  nat_eq, ℕ, Bool, true, false, not, ◌&&◌, ◌||◌, List, [], ◌∷◌, ◌++◌, map, Option, none, some,
  if◌then◌else◌, ◌==◌, filterb, Result, ok, err, ◌>>=◌,
}
use faro.Prelude.Maps.{lookup, insert}
use faro.Strings.{Bytes, bytes_eq, codes, join}
use faro.Encoding.{decimal}
use faro.Domains.{Ip}
use faro.ProtectionTime.{paused_at}
use faro.Coredns.Errors.{ApplyError, missing_hosts_file}
use faro.Coredns.Corefile.{Files, corefile_name, file_content, corefile_host_files}
use faro.Policy.{
  Profile, DeviceAddress, Assignment, Pause, Tables, Clock, RenderError, home_missing, any_row,
  is_active,
}
use faro.Policy.Hosts.{union, local_hosts, block_hosts_for_protection}
use faro.Policy.Settings.{RenderState, SettingsMap, render_state_for_settings}

pub record ProtectionRender : Type 0 where
  pub id : ℕ
  pub name : Bytes
  pub is_default : Bool
  pub client_ips : List Bytes
  pub hosts_file : Bytes
  pub block_hosts : Bytes
  pub active : Bool

pub record PausedDeviceRender : Type 0 where
  pub id : ℕ
  pub client_ips : List Bytes

pub record RenderedFiles : Type 0 where
  pub corefile : Bytes
  pub local_hosts : Bytes
  pub block_hosts : Bytes
  pub protection_hosts : Files

-- `device_addresses` joined with `device_protection_memberships`.
unfoldable pub member_addresses : Tables → ℕ → List DeviceAddress → List Bytes
unfolding any_row
member_addresses t protection [] = []
member_addresses t protection (a ∷ l) =
    let rest = member_addresses t protection l in
    if any_row (λ m. m.protection_id == protection && m.device_id == a.device_id) t.memberships
    then a.address ∷ rest
    else rest

unfoldable pub assigned_addresses : ℕ → List Assignment → List Bytes
assigned_addresses protection [] = []
assigned_addresses protection (a ∷ l) =
    let rest = assigned_addresses protection l in
    if a.protection_id == protection then a.client_ip ∷ rest else rest

unfoldable pub client_ips : Tables → ℕ → List Bytes
unfolding union member_addresses assigned_addresses
client_ips t protection =
    union (member_addresses t protection t.addresses) (assigned_addresses protection t.assignments)

-- `protection-%d.hosts`
unfoldable pub hosts_file_name : ℕ → Bytes
unfolding decimal
hosts_file_name id = codes "protection-" ++ (decimal id ++ codes ".hosts")

unfoldable pub protection_render : Tables → Clock → Profile → Bytes → ProtectionRender
unfolding client_ips hosts_file_name is_active
protection_render t c p blocks = record {
  id = p.id;
  name = p.name;
  is_default = p.is_default;
  client_ips = client_ips t p.id;
  hosts_file = hosts_file_name p.id;
  block_hosts = blocks;
  active = is_active c p;
}

-- The loop body of `protections`: a protection that is not active blocks nothing.
unfoldable pub render_protection : Tables → Clock → Profile → Result RenderError ProtectionRender
unfolding protection_render is_active block_hosts_for_protection
render_protection t c p = do
  blocks ← if is_active c p then block_hosts_for_protection t c p.id else ok []
  ok (protection_render t c p blocks)

unfoldable pub render_each :
    Tables → Clock → List Profile → Result RenderError (List ProtectionRender)
unfolding render_protection
render_each t c [] = ok []
render_each t c (p ∷ l) = do
  first ← render_protection t c p
  rest ← render_each t c l
  ok (first ∷ rest)

-- `ORDER BY is_default, id`.
unfoldable pub profile_order : List Profile → List Profile
profile_order l = filterb (λ p. not p.is_default) l ++ filterb (λ p. p.is_default) l

unfoldable pub protections : Tables → Clock → Result RenderError (List ProtectionRender)
unfolding render_each profile_order
protections t c = render_each t c (profile_order t.profiles)

unfoldable pub device_addresses : ℕ → List DeviceAddress → List Bytes
device_addresses device [] = []
device_addresses device (a ∷ l) =
    let rest = device_addresses device l in if a.device_id == device then a.address ∷ rest else rest

abbrev pub add_paused : ℕ → List Bytes → List PausedDeviceRender → List PausedDeviceRender
add_paused device [] rest = rest
add_paused device (a ∷ l) rest = record { id = device; client_ips = a ∷ l } ∷ rest

unfoldable pub paused_devices : Tables → Clock → List Pause → List PausedDeviceRender
unfolding union device_addresses
paused_devices t c [] = []
paused_devices t c (p ∷ l) =
    let rest = paused_devices t c l in
    if paused_at c.parsed p.paused_until c.now
    then add_paused p.device_id (union (device_addresses p.device_id t.addresses) []) rest
    else rest

abbrev pub prefix_bits : Option Ip → Bytes
prefix_bits none = codes "32"
prefix_bits (some ip) = if ip.is_v4 then codes "32" else codes "128"

unfoldable pub protection_view_expression : (Bytes → Option Ip) → List Bytes → Bytes
unfolding join
protection_view_expression parse_ip client_ips = join (codes " || ") (
    map
      (λ ip.
        codes "incidr(client_ip(), '"
        ++ (ip ++ (codes "/" ++ (prefix_bits (parse_ip ip) ++ codes "')"))))
      client_ips)

abbrev pub log_lines : Bytes
log_lines =
    codes
      "    errors\n    metadata\n    log . \"FARO|{remote}|{type}|{name}|{rcode}|{duration}|{/forward/upstream}\"\n"

abbrev pub spaced : List Bytes → Bytes
spaced [] = []
spaced (s ∷ l) = s ++ (codes " " ++ spaced l)

-- The server block of a paused device.
unfoldable pub paused_block : (Bytes → Option Ip) → RenderState → PausedDeviceRender → Bytes
unfolding decimal protection_view_expression join
paused_block parse_ip s device =
    codes ".:53 {\n    view device_pause_"
    ++ (decimal device.id
        ++ (codes " {\n        expr "
            ++ (protection_view_expression parse_ip device.client_ips
                ++ (codes "\n    }\n"
                    ++ (log_lines
                        ++ (codes "    acl {\n        allow net "
                            ++ (join (codes " ") s.allowed_cidrs
                                ++ codes
                                    "\n        block\n    }\n    template ANY ANY {\n        rcode REFUSED\n    }\n}\n")))))))

abbrev pub view_part : (Bytes → Option Ip) → ProtectionRender → Bytes
view_part parse_ip p =
    if p.is_default
    then []
    else codes "view protection_"
      ++ (decimal p.id
          ++ (codes " {\n        expr "
              ++ (protection_view_expression parse_ip p.client_ips ++ codes "\n    }\n    ")))

abbrev pub default_part : ProtectionRender → Bytes
default_part p =
    if p.is_default then codes "\n    prometheus 0.0.0.0:9153\n    reload 2s\n\t" else []

abbrev pub cache_part : RenderState → Bytes
cache_part s =
    if s.cache_enabled
    then codes "cache "
      ++ (decimal s.cache_ttl
          ++ (codes " {\n        success 9984 "
              ++ (decimal s.cache_ttl
                  ++ (codes " 5\n        denial 4096 "
                      ++ (decimal s.denial_ttl ++ codes " 5\n    }\n    ")))))
    else []

-- The template `serverBlock`.
unfoldable pub server_block : (Bytes → Option Ip) → RenderState → ProtectionRender → Bytes
unfolding decimal protection_view_expression
server_block parse_ip s p =
    codes ".:53 {\n    "
    ++ (view_part parse_ip p
        ++ (codes "\n"
            ++ (log_lines
                ++ (codes "    "
                    ++ (default_part p
                        ++ (codes "\n\tacl {\n\t\tallow net "
                            ++ (spaced s.allowed_cidrs
                                ++ (codes "\n\t\tblock\n\t}\n\t    hosts /etc/coredns/"
                                    ++ (p.hosts_file
                                        ++ (codes
                                              " {\n        ttl 60\n        fallthrough\n    }\n    "
                                            ++ (cache_part s
                                                ++ (codes "forward . "
                                                    ++ (spaced s.upstreams
                                                        ++ codes "\n}\n")))))))))))))

abbrev is_empty : List Bytes → Bool
is_empty [] = true
is_empty (s ∷ l) = false

-- A protection without addresses has no server block, unless it is the default.
unfoldable pub has_block : ProtectionRender → Bool
has_block p = p.is_default || not (is_empty p.client_ips)

abbrev pub server_blocks : (Bytes → Option Ip) → RenderState → List ProtectionRender → Bytes
server_blocks parse_ip s [] = []
server_blocks parse_ip s (p ∷ l) =
    let rest = server_blocks parse_ip s l in
    if has_block p then server_block parse_ip s p ++ rest else rest

abbrev pub paused_blocks : (Bytes → Option Ip) → RenderState → List PausedDeviceRender → Bytes
paused_blocks parse_ip s [] = []
paused_blocks parse_ip s (d ∷ l) = paused_block parse_ip s d ++ paused_blocks parse_ip s l

-- The maps of `renderProtectionBlocks`: the hosts files, and the blocks of the default protection.
unfoldable pub hosts_of_protections : Bytes → List ProtectionRender → Files → Files
hosts_of_protections local [] files = files
hosts_of_protections local (p ∷ l) files =
    hosts_of_protections local l
      (insert p.hosts_file (local ++ (codes "\n" ++ p.block_hosts)) files)

unfoldable pub default_blocks : List ProtectionRender → Bytes → Bytes
default_blocks [] blocks = blocks
default_blocks (p ∷ l) blocks = default_blocks l (if p.is_default then p.block_hosts else blocks)

unfoldable pub finish_render :
    (Bytes → Option Ip)
    → RenderState
    → Bytes
    → List PausedDeviceRender
    → List ProtectionRender
    → Result RenderError RenderedFiles
unfolding has_block server_block paused_block hosts_of_protections default_blocks
finish_render parse_ip s local paused [] = err home_missing
finish_render parse_ip s local paused (p ∷ l) = ok (record {
  corefile = paused_blocks parse_ip s paused ++ server_blocks parse_ip s (p ∷ l);
  local_hosts = local;
  block_hosts = default_blocks (p ∷ l) [];
  protection_hosts = hosts_of_protections local (p ∷ l) [];
})

unfoldable pub render :
    (Bytes → Option Ip)
    → (Bytes → Bool)
    → SettingsMap
    → Tables
    → Clock
    → Result RenderError RenderedFiles
unfolding render_state_for_settings local_hosts protections paused_devices finish_render
render parse_ip parse_cidr settings t c = do
  state ← render_state_for_settings parse_ip parse_cidr settings
  local ← local_hosts parse_ip t
  rendered ← protections t c
  finish_render parse_ip state local (paused_devices t c t.pauses) rendered

abbrev pub with_protections : Files → Files → Files
with_protections [] files = files
with_protections ((name, content) ∷ l) files = with_protections l (insert name content files)

abbrev pub own_files : RenderedFiles → Files
own_files r =
    (corefile_name, r.corefile)
    ∷ (codes "faro.hosts", r.local_hosts ++ (codes "\n" ++ r.block_hosts))
    ∷ (codes "local.hosts", r.local_hosts)
    ∷ (codes "blocklist.hosts", r.block_hosts)
    ∷ []

unfoldable pub files_from_rendered_state : RenderedFiles → Files
unfolding corefile_name
files_from_rendered_state r = with_protections r.protection_hosts (own_files r)

-- The loop of `runtimeFilesFromRenderedState`.
unfoldable pub pick_files : Files → List Bytes → Files → Result ApplyError Files
pick_files all [] files = ok files
pick_files all (name ∷ names) files = elim (lookup name all) [
  | none ↦ err (missing_hosts_file name)
  | some content ↦ pick_files all names (insert name content files)
]

unfoldable pub runtime_files_from_rendered_state : RenderedFiles → Result ApplyError Files
unfolding files_from_rendered_state pick_files corefile_host_files corefile_name file_content
runtime_files_from_rendered_state r = do
  let all = files_from_rendered_state r
  names ← corefile_host_files r.corefile
  pick_files all names ((corefile_name, file_content corefile_name all) ∷ [])
