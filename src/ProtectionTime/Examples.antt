-- ===== src/ProtectionTime/Examples.antt =====
-- Concrete schedules.
use faro.Prelude.{nat_eq, ℕ, ◌+◌, ◌*◌, ◌≡◌, ◌↔◌, refl, true, some, arith, ok}
use faro.Strings.{codes, bytes_beq, trim_space, split, join}
use faro.Encoding.{parse_int}
use faro.ProtectionTime.{Schedule, LocalTime, clock_minutes, iso_weekday, active_at, validate}
use faro.ProtectionTime.Weekly.{IsOpen, validated_active_iff}

-- Nights from Friday and Saturday.
abbrev nights0 : Schedule
nights0 = record {
  enabled = true;
  days = codes "5,6";
  start = codes "22:00";
  end = codes "6:30";
  timezone = codes "UTC";
}

abbrev sunday0 : LocalTime
sunday0 = record { weekday = 0; hour = 5; minute = 0 }

valid0 : validate (λ z. true) nights0 ≡ ok nights0
unfolding validate join split parse_int trim_space bytes_beq
valid0 = refl

active0 : active_at nights0 (some sunday0) ≡ true
unfolding active_at split bytes_beq trim_space
active0 = refl

validated_active_iff_example :
    (start : ℕ) × (end : ℕ) × (clock_minutes nights0.start ≡ some start)
    × (clock_minutes nights0.end ≡ some end)
    × ((active_at nights0 (some sunday0) ≡ true)
        ↔ IsOpen nights0.days start end (iso_weekday 0) (5 * 60 + 0))
validated_active_iff_example =
    validated_active_iff (λ z. true) nights0 nights0 valid0 refl sunday0 (omega arith) (omega arith)
      (omega arith)

-- Two texts of one clock time pass the check.
same_clock0 :
    validate (λ z. true) (record nights0 { start = codes "9:00"; end = codes "09:00" })
    ≡ ok (record nights0 { start = codes "9:00"; end = codes "09:00" })
unfolding validate join split parse_int trim_space bytes_beq
same_clock0 = refl
