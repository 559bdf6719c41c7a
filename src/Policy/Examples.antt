-- ===== src/Policy/Examples.antt =====
-- A concrete household: the default protection, one for a child's tablet, and one list.
use faro.Prelude.{
  nat_eq, ◌≡◌, refl, Bool, true, false, ◌&&◌, List, [], ◌∷◌, Option, none, some, All, arith, Result,
  ok, err, ℕ, ◌==◌,
}
use faro.Strings.{
  Bytes, bytes_eq, bytes_beq, codes, contains, trim_suffix, trim_space, to_lower, contains_any,
  split,
}
use faro.Encoding.{parse_int}
use faro.ProtectionTime.{paused_at, active_at}
use faro.Domains.{Ip, normalize_domain}
use faro.Coredns.Corefile.{Files, corefile_host_files, validate_generated_files}
use faro.Policy.{Profile, Tables, Clock, is_active, is_installed}
use faro.Policy.HostsFile.{file_blocks}
use faro.Policy.Blocks.{IsStored}
use faro.Policy.Settings.{RenderState, SettingsMap, default_cidrs, render_state_for_settings}
use faro.Policy.Explain.{device_is_paused, selected, explain_domain_for_client}
use faro.Policy.Render.{
  ProtectionRender, RenderedFiles, render_protection, protections, render,
  runtime_files_from_rendered_state,
}
use faro.Policy.Temporal.{current_temporal_signature, tick_applies, tick_applies-same}
use faro.Policy.Agreement.{explain-render_protection}
use faro.Policy.Serving.{serving}
use faro.Policy.RuntimeFiles.{runtime_files-validate}

abbrev always : Profile
always = record {
  id = 1;
  name = codes "Home";
  is_default = true;
  paused_until = [];
  schedule = record { enabled = false; days = []; start = []; end = []; timezone = codes "UTC" };
}

abbrev kids : Profile
kids = record always { id = 2; name = codes "Kids"; is_default = false }

abbrev ad_domain : Bytes
ad_domain = codes "ads.example"

abbrev tablet : Bytes
tablet = codes "10.0.0.7"

abbrev tables0 : Tables
tables0 = record {
  allows = record { id = 1; protection_id = 2; domain = codes "ok.example" } ∷ [];
  blocks = record { id = 1; protection_id = 2; domain = codes "game.example" } ∷ [];
  trials = [];
  blocklists = record { id = 1; name = codes "Ads"; enabled = true } ∷ [];
  list_entries = record { blocklist_id = 1; domain = ad_domain } ∷ [];
  list_choices = record { protection_id = 2; blocklist_id = 1 } ∷ [];
  profiles = always ∷ kids ∷ [];
  addresses = record { device_id = 5; address = tablet } ∷ [];
  memberships = record { device_id = 5; protection_id = 2 } ∷ [];
  assignments = [];
  pauses = [];
  records =
      record { id = 1; hostname = codes "nas.lan"; type = codes "A"; value = codes "10.0.0.2" }
      ∷ [];
}

abbrev noon : Clock
noon = record { now = 100; parsed = λ s. none; local = λ s. none; julianday = λ s. none }

-- Every address text is its own IPv4 address.
abbrev any_ip : Bytes → Option Ip
any_ip s = some (record { is_v4 = true; text = s })

abbrev any_cidr : Bytes → Bool
any_cidr s = true

stored0 : IsStored tables0
unfolding normalize_domain trim_suffix trim_space to_lower contains_any split
stored0 = (((omega arith, refl), tt), ((omega arith, refl), tt), tt, (refl, tt))

normal0 : normalize_domain (codes "ADS.example") ≡ ok ad_domain
unfolding normalize_domain trim_suffix trim_space to_lower contains_any split
normal0 = refl

awake0 : device_is_paused tables0 noon tablet ≡ false
unfolding device_is_paused bytes_beq
awake0 = refl

selected0 : selected tables0 tablet ≡ some kids
unfolding selected bytes_beq
selected0 = refl

explain-render_protection_example :
    (r : ProtectionRender) × (render_protection tables0 noon kids ≡ ok r)
    × ((explain_domain_for_client tables0 noon (codes "ADS.example") tablet).is_blocked
        ≡ file_blocks r.block_hosts ad_domain)
explain-render_protection_example =
    explain-render_protection tables0 noon (codes "ADS.example") ad_domain tablet kids stored0
      normal0 awake0 selected0

blocked0 : (explain_domain_for_client tables0 noon (codes "ADS.example") tablet).is_blocked ≡ true
unfolding explain_domain_for_client trim_suffix trim_space to_lower contains_any split bytes_beq
    paused_at active_at
blocked0 = refl

abbrev value_or : {E A : Type 0} → A → Result E A → A
value_or a (err e) = a
value_or a (ok b) = b

abbrev rendered0 : List ProtectionRender
unfolding protections
rendered0 = value_or [] (protections tables0 noon)

abbrev teens : Profile
teens = record always { id = 3; name = codes "Teens"; is_default = false }

-- The device has moved to the third protection, and the row of its other address still names the second.
abbrev moved : Tables
moved = record tables0 {
  profiles = always ∷ kids ∷ teens ∷ [];
  memberships = record { device_id = 5; protection_id = 3 } ∷ [];
  assignments = record { client_ip = tablet; protection_id = 2 } ∷ [];
}

moved_selected : selected moved tablet ≡ some teens
unfolding selected bytes_beq
moved_selected = refl

abbrev serving_id : Option ProtectionRender → ℕ
serving_id none = 0
serving_id (some r) = r.id

moved_serving : serving_id (serving tablet (value_or [] (protections moved noon))) ≡ 2
unfolding protections serving paused_at active_at trim_space trim_suffix to_lower contains_any split
    is_installed bytes_beq
moved_serving = refl

abbrev settings0 : SettingsMap
settings0 =
    (codes "upstream_dns", codes "9.9.9.9, 1.1.1.1") ∷ (codes "dns_cache_ttl", codes "-5") ∷ []

abbrev state0 : RenderState
state0 = record {
  upstreams = codes "9.9.9.9" ∷ codes "1.1.1.1" ∷ [];
  cache_enabled = true;
  cache_ttl = 30;
  denial_ttl = 30;
  allowed_cidrs = default_cidrs;
}

settings0_ok : render_state_for_settings any_ip any_cidr settings0 ≡ ok state0
unfolding render_state_for_settings trim_space split parse_int bytes_beq
settings0_ok = refl

abbrev no_files : RenderedFiles
no_files = record { corefile = []; local_hosts = []; block_hosts = []; protection_hosts = [] }

abbrev home_only : Tables
home_only = record tables0 { profiles = always ∷ []; memberships = []; records = [] }

abbrev settings1 : SettingsMap
settings1 =
    (codes "upstream_dns", codes "::1")
    ∷ (codes "dns_cache_enabled", codes "false")
    ∷ (codes "allowed_client_cidrs", codes "::/0")
    ∷ []

abbrev files0 : RenderedFiles
unfolding render
files0 = value_or no_files (render any_ip any_cidr settings1 home_only noon)

files0_ok : render any_ip any_cidr settings1 home_only noon ≡ ok files0
unfolding render trim_space split parse_int bytes_beq paused_at active_at trim_suffix to_lower
    contains_any is_installed
files0_ok = refl

abbrev names0 : List Bytes
names0 = codes "protection-1.hosts" ∷ []

names0_ok : corefile_host_files files0.corefile ≡ ok names0
unfolding corefile_host_files render trim_space split parse_int bytes_beq paused_at active_at
    trim_suffix to_lower contains_any is_installed
names0_ok = refl

text0 :
    (contains (codes ".:53") files0.corefile && contains (codes "forward .") files0.corefile) ≡ true
unfolding contains render trim_space split parse_int bytes_beq paused_at active_at trim_suffix
    to_lower contains_any is_installed
text0 = refl

abbrev installed0 : Files
unfolding runtime_files_from_rendered_state render
installed0 = value_or [] (runtime_files_from_rendered_state files0)

installed0_ok : runtime_files_from_rendered_state files0 ≡ ok installed0
unfolding runtime_files_from_rendered_state render trim_space split parse_int bytes_beq paused_at
    active_at trim_suffix to_lower contains_any is_installed
installed0_ok = refl

runtime_files-validate_example : validate_generated_files installed0 ≡ ok tt
runtime_files-validate_example =
    runtime_files-validate any_ip any_cidr settings1 home_only noon files0 names0 installed0
      files0_ok text0 names0_ok refl installed0_ok

-- A pause of the tablet's protection from 100 until 150.
abbrev paused_tables : Tables
paused_tables = record tables0 {
  profiles = always ∷ record kids { paused_until = codes "150" } ∷ [];
}

abbrev at_time : ℕ → Clock
at_time n = record noon { now = n; parsed = λ s. some 150 }

signed0 : (current_temporal_signature paused_tables (at_time 100) == []) ≡ false
unfolding current_temporal_signature bytes_beq
signed0 = refl

still0 :
    tick_applies
      (current_temporal_signature paused_tables (at_time 100))
      paused_tables
      (at_time 120)
    ≡ false
unfolding tick_applies trim_space active_at bytes_beq
still0 = refl

-- The tick after the end of the pause applies.
over0 :
    tick_applies
      (current_temporal_signature paused_tables (at_time 100))
      paused_tables
      (at_time 160)
    ≡ true
unfolding tick_applies trim_space active_at bytes_beq
over0 = refl

tick_applies-same_example :
    All (λ p. is_active (at_time 100) p ≡ is_active (at_time 120) p) paused_tables.profiles
tick_applies-same_example =
    tick_applies-same paused_tables (at_time 100) (at_time 120) signed0 still0
