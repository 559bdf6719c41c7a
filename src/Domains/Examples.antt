-- ===== src/Domains/Examples.antt =====
-- Concrete names and records.
use faro.Prelude.{◌≡◌, refl, true, some, ok}
use faro.Strings.{Bytes, codes, trim_space, trim_suffix, to_lower, split, contains_any, bytes_beq}
use faro.Domains.{Ip, NormalRecord, normalize_record}

abbrev nas0 : Bytes
nas0 = codes "nas.home"

abbrev ip0 : Ip
ip0 = record { is_v4 = true; text = codes "10.0.0.2" }

abbrev record0 : NormalRecord
record0 = record { host = nas0; type = codes "A"; value = codes "10.0.0.2" }

record0_ok :
    normalize_record (λ s. some ip0) (codes " NAS.home. ") (codes "a") (codes "10.0.0.2")
    ≡ ok record0
unfolding normalize_record trim_suffix trim_space to_lower contains_any split bytes_beq
record0_ok = refl
