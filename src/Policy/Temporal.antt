-- ===== src/Policy/Temporal.antt =====
-- internal/coredns/coredns.go: `currentTemporalSignature`, and the tick of `RunTemporalReloads` that
-- applies the policy when a schedule, a pause or a temporary exception passed a boundary.
use faro.Prelude.{
  nat_eq, ◌≡◌, refl, Bool, true, false, not, ◌&&◌, List, [], ◌∷◌, ◌++◌, if◌then◌else◌, ◌==◌, arith,
  All,
}
use faro.Strings.{Bytes, bytes_eq, bytes_iff, codes}
use faro.Encoding.{decimal}
use faro.ProtectionTime.{paused_at}
use faro.Policy.{Trial, Profile, Pause, Tables, Clock, is_active, is_unexpired}

abbrev bool_text : Bool → Bytes
bool_text true = codes "true"
bool_text false = codes "false"

-- `p:%d:%t;` for each protection, whether it filters.
unfoldable pub profile_part : Clock → List Profile → Bytes → Bytes
unfolding decimal is_active
profile_part c [] rest = rest
profile_part c (p ∷ l) rest =
    codes "p:"
    ++ (decimal p.id
        ++ (codes ":" ++ (bool_text (is_active c p) ++ (codes ";" ++ profile_part c l rest))))

-- `d:%d;` for each paused device.
unfoldable pub pause_part : Clock → List Pause → Bytes → Bytes
unfolding decimal paused_at
pause_part c [] rest = rest
pause_part c (p ∷ l) rest =
    let more = pause_part c l rest in
    if paused_at c.parsed p.paused_until c.now
    then codes "d:" ++ (decimal p.device_id ++ (codes ";" ++ more))
    else more

-- `t:%d;` for each exception that has not expired.
unfoldable pub trial_part : Clock → List Trial → Bytes
unfolding decimal is_unexpired
trial_part c [] = []
trial_part c (e ∷ l) =
    let more = trial_part c l in
    if is_unexpired c e then codes "t:" ++ (decimal e.id ++ (codes ";" ++ more)) else more

unfoldable pub current_temporal_signature : Tables → Clock → Bytes
unfolding profile_part pause_part trial_part
current_temporal_signature t c =
    profile_part c t.profiles (pause_part c t.pauses (trial_part c t.trials))

-- What a tick decides: whether `Apply` runs. `previous` is the signature of the last accepted apply.
unfoldable pub tick_applies : Bytes → Tables → Clock → Bool
unfolding current_temporal_signature
tick_applies previous t c = not (previous == []) && not (previous == current_temporal_signature t c)

cancel : (s a b : Bytes) → s ++ a ≡ s ++ b → a ≡ b
cancel [] a b h = h
cancel (c ∷ s) a b h = cancel s a b (ground arith)

same_text : (a b : Bool) (s u : Bytes) → bool_text a ++ s ≡ bool_text b ++ u → (a ≡ b) × (s ≡ u)
same_text true true s u h = (refl, cancel (codes "true") s u h)
same_text false false s u h = (refl, cancel (codes "false") s u h)
same_text true false s u h = absurd (ground arith)
same_text false true s u h = absurd (ground arith)

-- Equal parts come from protections that filter alike.
profile_part-same :
    (c d : Clock) (l : List Profile) (s u : Bytes)
    → profile_part c l s ≡ profile_part d l u
    → All (λ p. is_active c p ≡ is_active d p) l
unfolding profile_part
profile_part-same c d [] s u h = tt
profile_part-same c d (p ∷ l) s u h =
    let mine = profile_part c l s in
    let yours = profile_part d l u in
    let flags =
      cancel (codes ":") (bool_text (is_active c p) ++ (codes ";" ++ mine))
        (bool_text (is_active d p) ++ (codes ";" ++ yours))
        (cancel (decimal p.id) (codes ":" ++ (bool_text (is_active c p) ++ (codes ";" ++ mine)))
          (codes ":" ++ (bool_text (is_active d p) ++ (codes ";" ++ yours)))
          (cancel (codes "p:")
            (decimal p.id ++ (codes ":" ++ (bool_text (is_active c p) ++ (codes ";" ++ mine))))
            (decimal p.id ++ (codes ":" ++ (bool_text (is_active d p) ++ (codes ";" ++ yours))))
            h)) in
    let (same, rest) =
      same_text (is_active c p) (is_active d p) (codes ";" ++ mine) (codes ";" ++ yours) flags in
    (same, profile_part-same c d l s u (cancel (codes ";") mine yours rest))

-- If the remembered signature is that of an earlier time, and is not empty, then a tick that applies
-- nothing finds every protection filtering, or not, as it did at that time.
pub tick_applies-same :
    (t : Tables) (c d : Clock)
    → (current_temporal_signature t c == []) ≡ false
    → tick_applies (current_temporal_signature t c) t d ≡ false
    → All (λ p. is_active c p ≡ is_active d p) t.profiles
unfolding tick_applies current_temporal_signature
tick_applies-same t c d some_text h =
    let before = current_temporal_signature t c in
    let after = current_temporal_signature t d in
    profile_part-same c d t.profiles (pause_part c t.pauses (trial_part c t.trials))
      (pause_part d t.pauses (trial_part d t.trials)) ((bytes_iff before after).0 (ground arith))
