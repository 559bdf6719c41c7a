-- ===== src/Strings/Examples.antt =====
-- Runs of the string functions on literals.
use faro.Prelude.{◌≡◌, refl, [], ◌∷◌, some, true}
use faro.Strings.{
  codes, trim_space, split, fields, has_suffix, trim_suffix, contains, to_lower, sort_strings,
  cut_prefix,
}

trims : trim_space (codes "  a b ") ≡ codes "a b"
unfolding trim_space
trims = refl

splits : split b',' (codes "a,,b") ≡ codes "a" ∷ codes "" ∷ codes "b" ∷ []
unfolding split
splits = refl

field_list : fields (codes " hosts  /etc ") ≡ codes "hosts" ∷ codes "/etc" ∷ []
unfolding fields
field_list = refl

suffix : has_suffix (codes ".hosts") (codes "a.hosts") ≡ true
unfolding has_suffix
suffix = refl

no_dot : trim_suffix (codes ".") (codes "a.b.") ≡ codes "a.b"
unfolding trim_suffix
no_dot = refl

inside : contains (codes "##") (codes "x##y") ≡ true
unfolding contains
inside = refl

lower : to_lower (codes "AbZ") ≡ codes "abz"
unfolding to_lower
lower = refl

sorted :
    sort_strings (codes "b" ∷ codes "ab" ∷ codes "a" ∷ []) ≡ codes "a" ∷ codes "ab" ∷ codes "b" ∷ []
unfolding sort_strings
sorted = refl

cut : cut_prefix (codes "||") (codes "||x") ≡ some (codes "x")
unfolding cut_prefix
cut = refl
