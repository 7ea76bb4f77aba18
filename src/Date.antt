-- ===== src/Date.antt =====
-- Date.cc and Date.h: dates and their Julian day numbers. Years are counted from the year 0 on and days
-- from its first one, so that no number of the code is negative. `none` is a number of the code that
-- an int does not hold: `julian_day_of` and `year_month_day_of` are the results where all are held,
-- and the largest number of either function is compared with `int_max`.
pub mod Round
pub mod Calendar
use chat.Prelude.{Option, some, assert, leb, ◌>>=◌, ◌>>◌, ℕ, ◌+◌, ◌-◌, ◌*◌, ◌/◌, ◌%◌}

pub record YearMonthDay : Type 0 where
  pub year : ℕ
  pub month : ℕ
  pub day : ℕ

abbrev pub int_max : ℕ
int_max = 2147483647

-- The number of the day before the first of March of a year, and the days of the months from March on.
unfoldable pub julian_day_of : (year month day : ℕ) → ℕ
julian_day_of year month day =
    let a = (14 - month) / 12 in
    let y = year + 4800 - a in
    let m = month + 12 * a - 3 in
    day + (153 * m + 2) / 5 + y * 365 + y / 4 - y / 100 + y / 400 - 32045

-- The sum of the code before it takes anything off.
abbrev pub largest_sum : (year month day : ℕ) → ℕ
largest_sum year month day =
    let a = (14 - month) / 12 in
    let y = year + 4800 - a in
    let m = month + 12 * a - 3 in day + (153 * m + 2) / 5 + y * 365 + y / 4

unfoldable pub get_julian_day_number : (year month day : ℕ) → Option ℕ
get_julian_day_number year month day =
    assert (leb (largest_sum year month day) int_max) >> some (julian_day_of year month day)

unfoldable pub year_month_day_of : ℕ → YearMonthDay
year_month_day_of julian_day_number =
    let a = julian_day_number + 32044 in
    let b = (4 * a + 3) / 146097 in
    let c = a - b * 146097 / 4 in
    let d = (4 * c + 3) / 1461 in
    let e = c - 1461 * d / 4 in
    let m = (5 * e + 2) / 153 in
    record {
      year = b * 100 + d + m / 10 - 4800;
      month = m + 3 - 12 * (m / 10);
      day = e - (153 * m + 2) / 5 + 1;
    }

-- `4 * a + 3` is the largest number.
unfoldable pub get_year_month_day : ℕ → Option YearMonthDay
get_year_month_day julian_day_number =
    assert (leb (4 * (julian_day_number + 32044) + 3) int_max)
    >> some (year_month_day_of julian_day_number)

-- `kJulianDayOf1970_01_01`, by the function that the code calls.
abbrev pub julian_day_of_1970_01_01 : ℕ
julian_day_of_1970_01_01 = 2440588

unfoldable pub week_day : ℕ → ℕ
week_day julian_day_number = (julian_day_number + 1) % 7
