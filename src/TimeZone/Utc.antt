-- ===== src/TimeZone/Utc.antt =====
-- TimeZone.cc: UTC times there and back.
use chat.Prelude.{if◌then◌else◌, ℕ, ◌≤◌, ◌<◌, Bool}
use chat.Prelude.Int.{ℤ, pos, negsuc, ◌+ℤ◌, pos_part}
use chat.Date.{julian_day_of, year_month_day_of, julian_day_of_1970_01_01}
use chat.TimeZone.{Tm, split_day, utc_fields}

-- The first second of the year 0.
abbrev pub first_second : ℤ
first_second = negsuc 62167219199

-- The first second of a day that is too late for `getYearMonthDay`: more than fourteen hundred
-- thousand years from now.
abbrev pub too_late : ℕ
too_late = 46172011392000

-- The Julian day of a time and the second in it.
abbrev day_of : ℤ → ℕ
day_of t = pos_part ((split_day t).0 +ℤ pos julian_day_of_1970_01_01)

abbrev second_of : ℤ → ℕ
second_of t = pos_part (split_day t).1

-- The fields of a UTC time are in the ranges of `struct tm`.
abbrev pub InRange : Tm → Type 0
InRange u =
    (u.sec < 60)
    × (u.min < 60)
    × (u.hour < 24)
    × (u.mon < 12)
    × (1 ≤ u.mday)
    × (u.mday ≤ 31)
    × (u.wday < 7)

-- `toUtcTime` of a day whose numbers fit.
abbrev pub fields_of : ℤ → Bool → Tm
fields_of t yday =
    let j = day_of t in
    let ymd = year_month_day_of j in
    utc_fields (second_of t) j (if yday then julian_day_of ymd.year 1 1 else j) ymd
