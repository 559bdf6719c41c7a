-- ===== src/ProtectionTime/Weekly.antt =====
-- internal/protectiontime/protectiontime.go: the window against a description by minutes of the week.
use faro.Prelude.{
  nat_eq, ℕ, ◌+◌, ◌-◌, ◌*◌, ◌%◌, ◌≤◌, ◌<◌, ◌≡◌, ◌↔◌, refl, sym, ap, subst, ◌∙◌, Bool, true, ◌&&◌,
  [], ◌∷◌, Option, none, some, ltb, leb, if◌then◌else◌, ◌==◌, arith, ◌⊎◌, inl, inr, Bool-cases,
  Option-cases, ok,
}
use faro.Strings.{Bytes, bytes_eq}
use faro.ProtectionTime.{
  Schedule, LocalTime, clock_minutes, contains_day, iso_weekday, in_window, active_between,
  active_at, check_schedule, validate, trimmed, day_before, minute_digits, is_digit, add_hours,
}

abbrev pub day_minutes : ℕ
day_minutes = 1440

abbrev pub week_minutes : ℕ
week_minutes = 10080

-- How long a window lasts: up to its end on the same day, or on the next one.
abbrev pub duration : ℕ → ℕ → ℕ
duration start end = if ltb start end then end - start else day_minutes + end - start

-- The minutes since the window of a day opened, around the week.
abbrev pub since_opening : ℕ → ℕ → ℕ → ℕ → ℕ
since_opening day start today minute =
    (today * day_minutes + minute + week_minutes - (day * day_minutes + start)) % week_minutes

-- Some chosen day's window is open.
abbrev pub IsOpen : Bytes → ℕ → ℕ → ℕ → ℕ → Type 0
IsOpen days start end today minute =
    (day : ℕ) × (1 ≤ day)
    × (day ≤ 7)
    × (contains_day days day ≡ true)
    × (since_opening day start today minute < duration start end)

in_window-IsOpen :
    (days : Bytes) (start end today minute : ℕ)
    → start < day_minutes
    → end < day_minutes
    → minute < day_minutes
    → 1 ≤ today
    → today ≤ 7
    → in_window days start end today minute ≡ true
    → IsOpen days start end today minute
unfolding in_window
in_window-IsOpen days start end today minute s e m low high h =
    elim (Bool-cases (leb start minute)) [
      | inl a ↦ (today, low, high, ground arith, ground arith)
      | inr a ↦ (day_before today, ground arith, ground arith, ground arith, ground arith)
    ]

opened_day :
    (days : Bytes) (start end today minute day : ℕ)
    → start < day_minutes
    → end < day_minutes
    → minute < day_minutes
    → 1 ≤ today
    → today ≤ 7
    → 1 ≤ day
    → day ≤ 7
    → since_opening day start today minute < duration start end
    → ((day ≡ today) × (start ≤ minute) × ((end ≤ start) ⊎ (minute < end)))
      ⊎ ((day ≡ day_before today) × (minute < end) × (minute < start) × (end ≤ start))
opened_day days start end today minute day s e m low high dlow dhigh h = ground arith

IsOpen-in_window :
    (days : Bytes) (start end today minute : ℕ)
    → start < day_minutes
    → end < day_minutes
    → minute < day_minutes
    → 1 ≤ today
    → today ≤ 7
    → IsOpen days start end today minute
    → in_window days start end today minute ≡ true
unfolding in_window
IsOpen-in_window days start end today minute s e m low high (day, dlow, dhigh, chosen, since) =
    elim (opened_day days start end today minute day s e m low high dlow dhigh since) [
      | inl (same, a, b) ↦
          let now : contains_day days today ≡ true =
            subst (λ d. contains_day days d ≡ true) same chosen in
          ground arith
      | inr (same, a, b, c) ↦
          let then_ : contains_day days (day_before today) ≡ true =
            subst (λ d. contains_day days d ≡ true) same chosen in
          ground arith
    ]

minute_digits-lt : (s : Bytes) (n : ℕ) → minute_digits s ≡ some n → n < 60
unfolding minute_digits
minute_digits-lt [] n h = absurd (ground arith)
minute_digits-lt (a ∷ []) n h = absurd (ground arith)
minute_digits-lt (a ∷ b ∷ []) n h = ground arith
minute_digits-lt (a ∷ b ∷ c ∷ s) n h = absurd (ground arith)

add_hours-lt :
    (h : ℕ) (o : Option ℕ) (n : ℕ)
    → ((m : ℕ) → o ≡ some m → m < 60)
    → add_hours h o ≡ some n
    → n < day_minutes
add_hours-lt h none n f e = absurd (ground arith)
add_hours-lt h (some m) n f e = ground (arith, f m refl)

-- A clock time is less than a day.
clock_minutes-lt : (s : Bytes) (n : ℕ) → clock_minutes s ≡ some n → n < day_minutes
unfolding clock_minutes
clock_minutes-lt [] n h = absurd (ground arith)
clock_minutes-lt (a ∷ []) n h = absurd (ground arith)
clock_minutes-lt (a ∷ b ∷ []) n h = absurd (ground arith)
clock_minutes-lt (a ∷ b ∷ c ∷ s) n h = elim (Bool-cases (is_digit a && b == b':')) [
  | inl e ↦
      add_hours-lt (a - b'0') (minute_digits (c ∷ s)) n (minute_digits-lt (c ∷ s)) (ground arith)
  | inr e ↦ elim (Bool-cases (is_digit a && is_digit b && c == b':')) [
    | inl f ↦
        add_hours-lt ((a - b'0') * 10 + (b - b'0')) (minute_digits s) n (minute_digits-lt s)
          (ground arith)
    | inr f ↦ absurd (ground arith)
  ]
]

validate_ok :
    (zone : Bytes → Bool) (s t : Schedule)
    → check_schedule zone s ≡ ok t
    → s.enabled ≡ true
    → (t ≡ s)
      × (start : ℕ) × (end : ℕ) × (clock_minutes s.start ≡ some start)
      × (clock_minutes s.end ≡ some end)
unfolding check_schedule
validate_ok zone s t h on = elim (Option-cases (clock_minutes s.start)) [
  | inl e ↦ absurd (ground arith)
  | inr (start, e) ↦ elim (Option-cases (clock_minutes s.end)) [
    | inl f ↦ absurd (ground arith)
    | inr (end, f) ↦ (ground arith, start, end, e, f)
  ]
]

active_between_iff :
    (days : Bytes) (start end : ℕ) (now : LocalTime)
    → start < day_minutes
    → end < day_minutes
    → now.weekday < 7
    → now.hour < 24
    → now.minute < 60
    → (active_between days (some start) (some end) now ≡ true)
      ↔ IsOpen days start end (iso_weekday now.weekday) (now.hour * 60 + now.minute)
unfolding active_between iso_weekday
active_between_iff days start end now s e d h m = (
  in_window-IsOpen days start end (iso_weekday now.weekday) (now.hour * 60 + now.minute) s e
      (omega (arith, h, m)) (ground arith) (ground arith),
  IsOpen-in_window days start end (iso_weekday now.weekday) (now.hour * 60 + now.minute) s e
      (omega (arith, h, m)) (ground arith) (ground arith),
)

-- A schedule that `Validate` accepts and that is enabled has two clock times, and it is active exactly
-- in the windows of its days: each opens at the start of a chosen day and lasts until the end, on the
-- next day where the end is not after the start, the night from Sunday to Monday included. Two texts
-- for one clock time make a window of a whole day.
pub validated_active_iff :
    (zone : Bytes → Bool) (s t : Schedule)
    → validate zone s ≡ ok t
    → s.enabled ≡ true
    → (now : LocalTime) → now.weekday < 7
    → now.hour < 24
    → now.minute < 60
    → (start : ℕ) × (end : ℕ) × (clock_minutes t.start ≡ some start)
      × (clock_minutes t.end ≡ some end)
      × ((active_at t (some now) ≡ true)
          ↔ IsOpen t.days start end (iso_weekday now.weekday) (now.hour * 60 + now.minute))
unfolding validate active_at trimmed
validated_active_iff zone s t h on now d hour minute =
    let (same, start, end, a, b) = validate_ok zone (trimmed s) t h on in
    let a2 : clock_minutes t.start ≡ some start = ap (λ k. clock_minutes k.start) same ∙ a in
    let b2 : clock_minutes t.end ≡ some end = ap (λ k. clock_minutes k.end) same ∙ b in
    let on2 : t.enabled ≡ true = ap (λ k. k.enabled) same ∙ on in
    (
      start,
      end,
      a2,
      b2,
      subst
          (λ v.
            (v ≡ true)
            ↔ IsOpen t.days start end (iso_weekday now.weekday) (now.hour * 60 + now.minute))
          (sym (ground arith))
          (active_between_iff t.days start end now (clock_minutes-lt t.start start a2)
            (clock_minutes-lt t.end end b2) d hour minute),
    )
