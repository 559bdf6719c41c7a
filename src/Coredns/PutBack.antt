-- ===== src/Coredns/PutBack.antt =====
-- internal/coredns/coredns.go: putting back the settings that `readRuntimeSettings` read.
use faro.Prelude.{
  nat_eq, ◌≡◌, refl, sym, ap, subst, ◌∙◌, true, [], ◌∷◌, some, inl, inr, ◌==◌, arith, Bool-cases,
  Option-cases, if◌then◌else◌,
}
use faro.Prelude.Maps.{lookup, insert, lookup-insert}
use faro.Strings.{Bytes, bytes_eq, bytes_beq, bytes_iff}
use faro.Policy.Settings.{SettingsMap, setting}
use faro.Coredns.Replica.{dns_key, transport_key, two_settings, read_runtime_settings, put_settings}

pub lookup-put_settings :
    (values m : SettingsMap) (key : Bytes)
    → lookup key (put_settings values m) ≡ (
        if transport_key == key
        then some (setting transport_key values)
        else if dns_key == key
        then some (setting dns_key values)
        else lookup key m)
lookup-put_settings values m key =
    lookup-insert transport_key key (setting transport_key values)
      (insert dns_key (setting dns_key values) m)
    ∙ ap (λ o. if transport_key == key then some (setting transport_key values) else o)
        (lookup-insert dns_key key (setting dns_key values) m)

pub setting-two_settings :
    (dns transport : Bytes) (previous : SettingsMap)
    → two_settings (some dns) (some transport) ≡ some previous
    → (setting dns_key previous ≡ dns) × (setting transport_key previous ≡ transport)
unfolding setting bytes_beq
setting-two_settings dns transport previous h =
    let same : (dns_key, dns) ∷ (transport_key, transport) ∷ [] ≡ previous = ground arith in
    (ap (setting dns_key) (sym same) ∙ refl, ap (setting transport_key) (sym same) ∙ refl)

-- What was read is what putting it back restores.
pub put_settings-back :
    (m runtime previous : SettingsMap) (key : Bytes)
    → read_runtime_settings true m ≡ some previous
    → lookup key (put_settings previous (put_settings runtime m)) ≡ lookup key m
unfolding read_runtime_settings
put_settings-back m runtime previous key h = elim (Option-cases (lookup dns_key m)) [
  | inl a ↦ absurd (ground arith)
  | inr (dns, a) ↦ elim (Option-cases (lookup transport_key m)) [
    | inl b ↦ absurd (ground arith)
    | inr (transport, b) ↦
        let both : two_settings (some dns) (some transport) ≡ some previous = ground arith in
        let (d, t) = setting-two_settings dns transport previous both in
        let outer = lookup-put_settings previous (put_settings runtime m) key in
        let inner = lookup-put_settings runtime m key in
        elim (Bool-cases (transport_key == key)) [
          | inl y ↦
              let same = (bytes_iff transport_key key).0 y in
              let held : lookup key m ≡ some transport =
                subst (λ k. lookup k m ≡ some transport) same b in
              ground (arith, outer, y, t, held)
          | inr n ↦ elim (Bool-cases (dns_key == key)) [
            | inl y ↦
                let same = (bytes_iff dns_key key).0 y in
                let held : lookup key m ≡ some dns = subst (λ k. lookup k m ≡ some dns) same a in
                ground (arith, outer, n, y, d, held)
            | inr k ↦ ground (arith, outer, inner, n, k)
          ]
        ]
  ]
]
