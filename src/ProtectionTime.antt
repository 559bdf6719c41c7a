-- ===== src/ProtectionTime.antt =====
-- internal/protectiontime/protectiontime.go: the weekly window of a protection. The database of time
-- zones is a parameter: a zone gives the weekday (0 is Sunday), the hour and the minute of a time.
pub mod Weekly
mod Examples
use faro.Prelude.{
  nat_eq, ℕ, ◌+◌, ◌-◌, ◌*◌, Bool, true, false, not, ◌&&◌, ◌||◌, List, [], ◌∷◌, Option, none, some,
  ltb, leb, if◌then◌else◌, ◌==◌, length, is_some, Result, ok, err, ◌>>=◌, ◌>>◌, guard,
}
use faro.Strings.{Bytes, bytes_eq, codes, trim_space, split, join}
use faro.Encoding.{Int64, parse_int}

pub record Schedule : Type 0 where
  pub enabled : Bool
  pub days : Bytes
  pub start : Bytes
  pub end : Bytes
  pub timezone : Bytes

pub data ScheduleError : Type 0 where
  no_day invalid_start invalid_end same_time unknown_timezone : ScheduleError

pub record LocalTime : Type 0 where
  pub weekday : ℕ
  pub hour : ℕ
  pub minute : ℕ

unfoldable pub is_digit : ℕ → Bool
is_digit c = leb b'0' c && leb c b'9'

-- Two digits at the end of a text, below 60.
unfoldable pub minute_digits : Bytes → Option ℕ
unfolding is_digit
minute_digits (a ∷ b ∷ []) =
    if is_digit a && is_digit b && ltb a b'6' then some ((a - b'0') * 10 + (b - b'0')) else none
minute_digits _ = none

abbrev pub add_hours : ℕ → Option ℕ → Option ℕ
add_hours h none = none
add_hours h (some m) = if ltb h 24 then some (h * 60 + m) else none

-- `time.Parse("15:04", value)`: one or two digits, a colon, two digits.
unfoldable pub clock_minutes : Bytes → Option ℕ
unfolding is_digit minute_digits
clock_minutes (a ∷ b ∷ c ∷ s) =
    if is_digit a && b == b':'
    then add_hours (a - b'0') (minute_digits (c ∷ s))
    else if is_digit a && is_digit b && c == b':'
    then add_hours ((a - b'0') * 10 + (b - b'0')) (minute_digits s)
    else none
clock_minutes _ = none

unfoldable pub any_day : ℕ → List Bytes → Bool
any_day day [] = false
any_day day (s ∷ l) = elim (parse_int (trim_space s)) [
  | none ↦ any_day day l
  | some n ↦ (not n.0 && n.1 == day) || any_day day l
]

unfoldable pub day_text : ℕ → Bytes
day_text day = (b'0' + day) ∷ []

unfoldable pub days_from : List ℕ → List Bytes → List Bytes
unfolding any_day day_text
days_from [] pieces = []
days_from (day ∷ l) pieces =
    if any_day day pieces then day_text day ∷ days_from l pieces else days_from l pieces

abbrev pub week : List ℕ
week = 1 ∷ 2 ∷ 3 ∷ 4 ∷ 5 ∷ 6 ∷ 7 ∷ []

unfoldable pub normalize_days : Bytes → Bytes
unfolding days_from
normalize_days value = join (codes ",") (days_from week (split b',' value))

unfoldable pub has_piece : Bytes → List Bytes → Bool
has_piece needle [] = false
has_piece needle (s ∷ l) = trim_space s == needle || has_piece needle l

unfoldable pub contains_day : Bytes → ℕ → Bool
unfolding has_piece day_text
contains_day days day = has_piece (day_text day) (split b',' days)

unfoldable pub iso_weekday : ℕ → ℕ
iso_weekday day = if day == 0 then 7 else day

unfoldable pub trimmed : Schedule → Schedule
unfolding normalize_days
trimmed s = record s {
  days = normalize_days s.days;
  start = trim_space s.start;
  end = trim_space s.end;
  timezone = if length (trim_space s.timezone) == 0 then codes "UTC" else trim_space s.timezone;
}

unfoldable pub check_schedule : (Bytes → Bool) → Schedule → Result ScheduleError Schedule
unfolding clock_minutes
check_schedule zone_known s = if not s.enabled then ok s else (do
  guard (not (length s.days == 0)) no_day
  guard (is_some (clock_minutes s.start)) invalid_start
  guard (is_some (clock_minutes s.end)) invalid_end
  guard (not (s.start == s.end)) same_time
  guard (zone_known s.timezone) unknown_timezone
  ok s)

unfoldable pub validate : (Bytes → Bool) → Schedule → Result ScheduleError Schedule
unfolding trimmed check_schedule
validate zone_known s = check_schedule zone_known (trimmed s)

abbrev pub day_before : ℕ → ℕ
day_before today = if today - 1 == 0 then 7 else today - 1

unfoldable pub in_window : Bytes → ℕ → ℕ → ℕ → ℕ → Bool
unfolding contains_day
in_window days start end today minute =
    if ltb start end
    then contains_day days today && leb start minute && ltb minute end
    else if leb start minute
    then contains_day days today
    else ltb minute end && contains_day days (day_before today)

unfoldable pub active_between : Bytes → Option ℕ → Option ℕ → LocalTime → Bool
unfolding in_window iso_weekday
active_between days (some start) (some end) t =
    in_window days start end (iso_weekday t.weekday) (t.hour * 60 + t.minute)
active_between days _ _ t = false

-- `local` is the time in the schedule's zone, `none` for an unknown zone.
unfoldable pub active_at : Schedule → Option LocalTime → Bool
unfolding active_between clock_minutes
active_at s none = not s.enabled
active_at s (some t) =
    not s.enabled || active_between s.days (clock_minutes s.start) (clock_minutes s.end) t

-- `parsed` is what `time.Parse` gives of the trimmed text.
unfoldable pub paused_at : (Bytes → Option ℕ) → Bytes → ℕ → Bool
paused_at parsed text now =
    if length (trim_space text) == 0
    then false
    else elim (parsed (trim_space text)) [ none ↦ false | some until ↦ ltb now until ]
