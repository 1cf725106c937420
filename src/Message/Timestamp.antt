-- ===== src/Message/Timestamp.antt =====
-- parse_iso8601_timestamp of src/message_handler.c, with the C library's sscanf, strchr and timegm.
use bacnet_event_server.Base.{
  ℕ, ◌+◌, ◌-◌, ◌*◌, ◌/◌, Bool, not, ◌&&◌, ◌||◌, [], ◌∷◌, Option, none, some, Bytes, codes,
  if◌then◌else◌, ◌==◌, ltb, ◌≡◌, refl,
}
use bacnet_event_server.Base.Int.{
  ℤ, pos, ◌+ℤ◌, ◌-ℤ◌, ◌*ℤ◌, negate, floor_div, floor_mod, is_minus_one,
}
use bacnet_event_server.Base.Scan.{◌>>=◌, is_digit, scan_int, scan_char, strchr}

-- `sscanf(s, "%d-%d-%d", …) == 3`, and the same with colons.
unfoldable pub scan_three : ℕ → Bytes → Option (ℤ × ℤ × ℤ)
scan_three sep s = do
  (a, s1) ← scan_int s
  s2 ← scan_char sep s1
  (b, s3) ← scan_int s2
  s4 ← scan_char sep s3
  (c, s5) ← scan_int s4
  some (a, b, c)

-- The separator: the first T, or else the first space.
abbrev pub or_else {ℓ} : {A : Type ℓ} → Option A → Option A → Option A
or_else none b = b
or_else (some a) b = some a

abbrev pub skip_one : Bytes → Bytes
skip_one [] = []
skip_one (c ∷ s) = s

unfoldable pub time_part : Bytes → Option Bytes
time_part s = do some (skip_one (← or_else (strchr b'T' s) (strchr b' ' s)))

-- Up to three digits written over "000", and their value.
unfoldable pub fraction_digits : ℕ → Bytes → ℕ
fraction_digits weight [] = 0
fraction_digits weight (c ∷ s) =
    let rest = fraction_digits (weight / 10) s in
    if is_digit c && ltb 0 weight then (c - b'0') * weight + rest else 0

abbrev pub milliseconds_of : Option Bytes → ℕ
milliseconds_of none = 0
milliseconds_of (some s) = fraction_digits 100 (skip_one s)

unfoldable pub milliseconds : Bytes → ℕ
unfolding fraction_digits
milliseconds time = milliseconds_of (strchr b'.' time)

-- The walk to the time zone: `i` characters lie behind, `prev` the last of them.
unfoldable pub find_zone : ℕ → ℕ → Bytes → Bytes
find_zone i prev [] = []
find_zone i prev (c ∷ s) =
    if not (c == b'Z')
      && not (c == b'+')
      && (not (c == b'-') || i == 0 || not (prev == b':'))
      && not (c == b'-' && ltb 10 i)
    then find_zone (i + 1) c s
    else c ∷ s

-- The second number of `"%d:%d"`, which stays 0 if it is not read.
abbrev pub minutes_after : Bytes → ℤ
minutes_after s = elim (scan_char b':' s) [
  | none ↦ pos 0
  | some r ↦ elim (scan_int r) [ none ↦ pos 0 | some (m, r') ↦ m ]
]

abbrev pub offset_of : Option (ℤ × Bytes) → ℤ
offset_of none = pos 0
offset_of (some (hour, s)) = hour *ℤ 60 +ℤ minutes_after s

-- The offset in minutes that a zone designator gives.
unfoldable pub zone_offset : Bytes → ℤ
zone_offset [] = pos 0
zone_offset (c ∷ s) =
    if c == b'+'
    then offset_of (scan_int s)
    else if c == b'-'
    then negate (offset_of (scan_int s))
    else pos 0

-- timegm. The days of a year before each of its months, and the days before the year.
abbrev pub days_before_month : ℕ → ℕ
days_before_month m =
    if m == 0
    then 0
    else if m == 1
    then 31
    else if m == 2
    then 59
    else if m == 3
    then 90
    else if m == 4
    then 120
    else if m == 5
    then 151
    else if m == 6
    then 181
    else if m == 7
    then 212
    else if m == 8
    then 243
    else if m == 9
    then 273
    else if m == 10
    then 304
    else 334

abbrev pub is_leap : ℤ → Bool
is_leap y = floor_mod y 4 == 0 && (not (floor_mod y 100 == 0) || floor_mod y 400 == 0)

unfoldable pub days_before_year : ℤ → ℤ
unfolding ◌+ℤ◌ ◌-ℤ◌ ◌*ℤ◌
days_before_year y =
    (y -ℤ pos 1970) *ℤ 365
    +ℤ floor_div (y -ℤ pos 1969) 4
    -ℤ floor_div (y -ℤ pos 1901) 100
    +ℤ floor_div (y -ℤ pos 1601) 400

-- The seconds since the epoch of a date and time in UTC; months out of range carry into the year.
unfoldable pub timegm : ℤ → ℤ → ℤ → ℤ → ℤ → ℤ → ℤ
unfolding days_before_year ◌+ℤ◌ ◌-ℤ◌ ◌*ℤ◌ floor_mod
timegm year month day hour minute second =
    let m = floor_mod (month -ℤ pos 1) 12 in
    let y = year +ℤ floor_div (month -ℤ pos 1) 12 in
    let leap_day : ℕ = if is_leap y && ltb 1 m then 1 else 0 in
    let days = days_before_year y +ℤ pos (days_before_month m + leap_day) +ℤ day -ℤ pos 1 in
    days *ℤ 86400 +ℤ hour *ℤ 3600 +ℤ minute *ℤ 60 +ℤ second

-- The end of the function: -1 from timegm is an error, and the offset is taken off.
abbrev pub in_milliseconds : ℤ → ℤ → ℕ → Option ℤ
in_milliseconds epoch zone ms =
    if is_minus_one epoch then none else some ((epoch -ℤ zone *ℤ 60) *ℤ 1000 +ℤ pos ms)

-- parse_iso8601_timestamp: milliseconds since the epoch, or `none` for -1.
unfoldable pub parse_timestamp : Bytes → Option ℤ
unfolding scan_three time_part milliseconds find_zone zone_offset timegm scan_int strchr
parse_timestamp s = do
  (year, month, day) ← scan_three b'-' s
  time ← time_part s
  (hour, minute, second) ← scan_three b':' time
  in_milliseconds (timegm year month day hour minute second) (zone_offset (find_zone 0 0 s))
      (milliseconds time)

utc : parse_timestamp (codes "2024-12-14T10:30:00Z") ≡ some (pos 1734172200000)
unfolding parse_timestamp
utc = refl

with_offset : parse_timestamp (codes "2024-12-14T10:30:00.5+01:00") ≡ some (pos 1734168600500)
unfolding parse_timestamp
with_offset = refl
