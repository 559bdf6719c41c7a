-- ===== src/Policy/RuntimeFiles.antt =====
-- internal/coredns/diagnostics.go: the file set that rendering hands to the installation.
use faro.Prelude.{
  nat_eq, ℕ, ◌≡◌, refl, subst, ◌∙◌, Bool, true, false, ◌&&◌, List, [], ◌∷◌, ◌++◌, Option, none,
  some, inl, inr, ◌==◌, arith, is_some, Bool-cases, Option-cases, Result-cases, ok, if◌then◌else◌,
}
use faro.Prelude.Maps.{lookup, insert, delete, lookup-insert}
use faro.Strings.{Bytes, bytes_eq, bytes_beq, bytes_iff, codes, contains, contains_string}
use faro.Coredns.Corefile.{
  Files, corefile_name, corefile_host_files, content_or_empty, file_content, all_present,
  all_referenced, is_nonempty, validate_generated_files,
}
use faro.Domains.{Ip}
use faro.Policy.{Profile, Tables, Clock, is_active}
use faro.Policy.Hosts.{block_hosts_for_protection, local_hosts}
use faro.Policy.Settings.{RenderState, SettingsMap, render_state_for_settings}
use faro.Policy.Render.{
  protection_render, render_protection, render_each, profile_order, protections, finish_render,
  render, with_protections, own_files, paused_devices, PausedDeviceRender, paused_blocks,
  server_blocks, default_blocks, ProtectionRender, RenderedFiles, hosts_file_name,
  hosts_of_protections, files_from_rendered_state, pick_files, runtime_files_from_rendered_state,
}

all_referenced-delete :
    (names : List Bytes) (name : Bytes) (files : Files)
    → all_referenced names files ≡ ok tt
    → all_referenced names (delete name files) ≡ ok tt
unfolding all_referenced
all_referenced-delete names name [] h = refl
all_referenced-delete names name ((n, content) ∷ files) h =
    ground (arith, all_referenced-delete names name files)

module _ (all : Files) where
  pick_files-referenced :
      (listed names : List Bytes) (files out : Files)
      → ((s : Bytes) → contains_string s names ≡ true → contains_string s listed ≡ true)
      → all_referenced listed files ≡ ok tt
      → pick_files all names files ≡ ok out
      → all_referenced listed out ≡ ok tt
  unfolding pick_files all_referenced contains_string
  pick_files-referenced listed [] files out sub h e = ground arith
  pick_files-referenced listed (name ∷ names) files out sub h e =
      elim (Option-cases (lookup name all)) [
        | inl a ↦ absurd (ground arith)
        | inr (content, a) ↦
            pick_files-referenced listed names (insert name content files) out
              (λ s m. sub s (ground arith))
              (ground (
                arith,
                bytes_iff name name,
                sub name (ground (arith, bytes_iff name name)),
                all_referenced-delete listed name files h,
              ))
              (ground arith)
      ]

  -- A file that is there stays, and only a name of the list changes its content.
  pick_files-keeps :
      (s : Bytes) (names : List Bytes) (files out : Files)
      → is_some (lookup s files) ≡ true
      → pick_files all names files ≡ ok out
      → is_some (lookup s out) ≡ true
  unfolding pick_files
  pick_files-keeps s [] files out h e = ground arith
  pick_files-keeps s (name ∷ names) files out h e = elim (Option-cases (lookup name all)) [
    | inl a ↦ absurd (ground arith)
    | inr (content, a) ↦
        pick_files-keeps s names (insert name content files) out
          (ground (arith, lookup-insert name s content files)) (ground arith)
  ]

  pick_files-present :
      (s : Bytes) (names : List Bytes) (files out : Files)
      → contains_string s names ≡ true
      → pick_files all names files ≡ ok out
      → is_some (lookup s out) ≡ true
  unfolding pick_files contains_string
  pick_files-present s [] files out m e = absurd (ground arith)
  pick_files-present s (name ∷ names) files out m e = elim (Option-cases (lookup name all)) [
    | inl a ↦ absurd (ground arith)
    | inr (content, a) ↦ elim (Bool-cases (name == s)) [
      | inl y ↦
          pick_files-keeps s names (insert name content files) out
            (ground (arith, lookup-insert name s content files)) (ground arith)
      | inr n ↦
          pick_files-present s names (insert name content files) out (ground arith) (ground arith)
    ]
  ]

  pick_files-corefile :
      (content : Bytes) (names : List Bytes) (files out : Files)
      → lookup corefile_name all ≡ some content
      → lookup corefile_name files ≡ some content
      → pick_files all names files ≡ ok out
      → lookup corefile_name out ≡ some content
  unfolding pick_files
  pick_files-corefile content [] files out h i e = ground arith
  pick_files-corefile content (name ∷ names) files out h i e =
      elim (Option-cases (lookup name all)) [
        | inl a ↦ absurd (ground arith)
        | inr (found, a) ↦
            pick_files-corefile content names (insert name found files) out h
              (ground
                (arith, bytes_iff name corefile_name, lookup-insert name corefile_name found files))
              (ground arith)
      ]

all_present_of :
    (files : Files) (names : List Bytes)
    → ((s : Bytes) → contains_string s names ≡ true → is_some (lookup s files) ≡ true)
    → all_present files names ≡ ok tt
unfolding all_present contains_string
all_present_of files [] h = refl
all_present_of files (name ∷ names) h = ground (
  arith,
  h name (ground (arith, bytes_iff name name)),
  all_present_of files names (λ s m. h s (ground arith)),
)

lookup-with_protections :
    (k : Bytes) (l files : Files)
    → lookup k l ≡ none
    → lookup k (with_protections l files) ≡ lookup k files
lookup-with_protections k [] files h = refl
lookup-with_protections k ((name, content) ∷ l) files h = ground (
  arith,
  lookup-with_protections k l (insert name content files),
  lookup-insert name k content files,
)

hosts_file_name_differs : (id : ℕ) → (hosts_file_name id == corefile_name) ≡ false
unfolding hosts_file_name corefile_name bytes_beq
hosts_file_name_differs id = refl

render_protection-hosts_file :
    (t : Tables) (c : Clock) (p : Profile) (r : ProtectionRender)
    → render_protection t c p ≡ ok r
    → (r.hosts_file == corefile_name) ≡ false
unfolding render_protection protection_render
render_protection-hosts_file t c p r h =
    elim (Result-cases (if is_active c p then block_hosts_for_protection t c p.id else ok [])) [
      | inr (f, a) ↦ absurd (ground arith)
      | inl (blocks, a) ↦
          let same : protection_render t c p blocks ≡ r = ground arith in
          subst (λ x. (x.hosts_file == corefile_name) ≡ false) same (hosts_file_name_differs p.id)
    ]

-- No hosts file of a protection takes the place of the Corefile.
lookup-hosts_of_protections :
    (t : Tables) (c : Clock) (local : Bytes) (l : List Profile) (rs : List ProtectionRender)
    (files : Files)
    → render_each t c l ≡ ok rs
    → lookup corefile_name (hosts_of_protections local rs files) ≡ lookup corefile_name files
unfolding render_each hosts_of_protections
lookup-hosts_of_protections t c local [] rs files h =
    let empty : [] ≡ rs = ground arith in
    subst
      (λ x. lookup corefile_name (hosts_of_protections local x files) ≡ lookup corefile_name files)
      empty refl
lookup-hosts_of_protections t c local (p ∷ l) rs files h =
    elim (Result-cases (render_protection t c p)) [
      | inr (f, a) ↦ absurd (ground arith)
      | inl (r, a) ↦ elim (Result-cases (render_each t c l)) [
        | inr (f, b) ↦ absurd (ground arith)
        | inl (rest, b) ↦
            let all : r ∷ rest ≡ rs = ground arith in
            let content = local ++ (codes "\n" ++ r.block_hosts) in
            subst
              (λ x.
                lookup corefile_name (hosts_of_protections local x files)
                ≡ lookup corefile_name files)
              all
              (lookup-hosts_of_protections t c local l rest (insert r.hosts_file content files) b
                ∙ ground (
                  arith,
                  render_protection-hosts_file t c p r a,
                  lookup-insert r.hosts_file corefile_name content files,
                ))
      ]
    ]

finish_render-corefile :
    (parse_ip : Bytes → Option Ip) (state : RenderState) (local : Bytes)
    (paused : List PausedDeviceRender) (rs : List ProtectionRender) (r : RenderedFiles)
    → finish_render parse_ip state local paused rs ≡ ok r
    → lookup corefile_name (hosts_of_protections local rs []) ≡ none
    → lookup corefile_name (files_from_rendered_state r) ≡ some r.corefile
unfolding finish_render files_from_rendered_state bytes_beq corefile_name
finish_render-corefile parse_ip state local paused [] r h n = absurd (ground arith)
finish_render-corefile parse_ip state local paused (p ∷ l) r h n =
    let hosts = hosts_of_protections local (p ∷ l) [] in
    let whole : RenderedFiles = record {
      corefile = paused_blocks parse_ip state paused ++ server_blocks parse_ip state (p ∷ l);
      local_hosts = local;
      block_hosts = default_blocks (p ∷ l) [];
      protection_hosts = hosts;
    } in
    let same : whole ≡ r = ground arith in
    subst (λ x. lookup corefile_name (files_from_rendered_state x) ≡ some x.corefile) same
      (lookup-with_protections corefile_name hosts (own_files whole) n)

-- The Corefile of the rendered files is the one that was rendered.
rendered_corefile :
    (parse_ip : Bytes → Option Ip) (parse_cidr : Bytes → Bool) (settings : SettingsMap) (t : Tables)
    (c : Clock) (r : RenderedFiles)
    → render parse_ip parse_cidr settings t c ≡ ok r
    → lookup corefile_name (files_from_rendered_state r) ≡ some r.corefile
unfolding render protections
rendered_corefile parse_ip parse_cidr settings t c r h =
    elim (Result-cases (render_state_for_settings parse_ip parse_cidr settings)) [
      | inr (f, a) ↦ absurd (ground arith)
      | inl (state, a) ↦ elim (Result-cases (local_hosts parse_ip t)) [
        | inr (f, b) ↦ absurd (ground arith)
        | inl (local, b) ↦ elim (Result-cases (render_each t c (profile_order t.profiles))) [
          | inr (f, d) ↦ absurd (ground arith)
          | inl (rs, d) ↦
              finish_render-corefile parse_ip state local (paused_devices t c t.pauses) rs r
                (ground arith)
                (lookup-hosts_of_protections t c local (profile_order t.profiles) rs [] d)
        ]
      ]
    ]

-- Rendered files whose Corefile has a server block and a forward line and names a hosts file pass the
-- checks of `validateGeneratedFiles`: the set that is handed to the installation has every hosts file
-- that the Corefile names, and no other.
pub runtime_files-validate :
    (parse_ip : Bytes → Option Ip) (parse_cidr : Bytes → Bool) (settings : SettingsMap) (t : Tables)
    (c : Clock) (r : RenderedFiles) (names : List Bytes) (files : Files)
    → render parse_ip parse_cidr settings t c ≡ ok r
    → (contains (codes ".:53") r.corefile && contains (codes "forward .") r.corefile) ≡ true
    → corefile_host_files r.corefile ≡ ok names
    → is_nonempty names ≡ true
    → runtime_files_from_rendered_state r ≡ ok files
    → validate_generated_files files ≡ ok tt
unfolding validate_generated_files runtime_files_from_rendered_state file_content content_or_empty
runtime_files-validate parse_ip parse_cidr settings t c r names files h text hosts some_name e =
    let all = files_from_rendered_state r in
    let core = rendered_corefile parse_ip parse_cidr settings t c r h in
    let first = (corefile_name, r.corefile) ∷ [] in
    let picked : pick_files all names first ≡ ok files = ground (arith, core) in
    let kept =
      pick_files-corefile all r.corefile names first files core
        (ground (arith, bytes_iff corefile_name corefile_name)) picked in
    let present =
      all_present_of files names (λ s m. pick_files-present all s names first files m picked) in
    let referenced =
      pick_files-referenced all names names first files (λ s m. m)
        (ground (arith, bytes_iff corefile_name corefile_name)) picked in
    ground (arith, kept, present, referenced)
