-- ===== src/TimeZone/Tests.antt =====
-- TimeZone.cc and Date.cc at concrete times, and their theorems at these.
use chat.Prelude.{◌>>=◌, ◌*◌, some, none, ◌≡◌, refl, true, false, [], ◌∷◌, arith}
use chat.Prelude.Int.{ℤ, pos, negsuc, ◌+ℤ◌, ◌-ℤ◌, ◌*ℤ◌, quot, rem}
use chat.Date.{
  year_month_day_of, julian_day_of, YearMonthDay, get_julian_day_number, get_year_month_day,
}
use chat.Date.Calendar.{IsDate, get_year_month_day-get_julian_day_number}
use chat.TimeZone.{
  Tm, Localtime, Data, to_utc_time, from_utc_time, from_utc_parts, split_day, fill_hms, lower_bound,
  is_before_all, step_back, find_localtime, to_local_time, from_local_time,
}
use chat.TimeZone.Utc.{fields_of}
use chat.TimeZone.Search.{latest, zone_of, find_localtime-latest}
use chat.TimeZone.Local.{at_utc, at_local, localised, from_local_time-to_local_time}
use chat.TimeZone.File.{Bytes, empty, read_bytes, read_counts, read_time_zone_file}
use chat.TimeZone.File.Round.{ZoneFile, IsZoneFile, written, data_of, read_time_zone_file-written}

abbrev leap_day : YearMonthDay
leap_day = record { year = 2000; month = 2; day = 29 }

leap_day-IsDate : IsDate leap_day
leap_day-IsDate = record {
  month_in = (omega arith, omega arith);
  day_in = (omega arith, omega arith);
}

get_year_month_day-get_julian_day_number_example :
    (get_julian_day_number 2000 2 29 >>= get_year_month_day) ≡ some leap_day
get_year_month_day-get_julian_day_number_example =
    get_year_month_day-get_julian_day_number leap_day leap_day-IsDate (omega arith)

-- An int does not hold the days of a year that is too late.
no_such_day : get_julian_day_number 6000000 1 1 ≡ none
unfolding get_julian_day_number
no_such_day = refl

-- A second before 1970.
last_second : (to_utc_time (negsuc 0) true >>= λ u. some u.sec) ≡ some 59
unfolding to_utc_time split_day fill_hms rem quot ◌+ℤ◌ ◌-ℤ◌ get_julian_day_number get_year_month_day
    year_month_day_of
last_second = refl

-- 2 ^ 32 days after the epoch the cast to `int` gives the day of the epoch.
wrapped_day : split_day (pos (4294967296 * 86400)) ≡ (pos 0, pos 0)
unfolding split_day rem quot
wrapped_day = refl

-- gmtime_r(3) and timegm(3) for the times of the tests.
abbrev gmtime : ℤ → Tm
gmtime t = elim (to_utc_time t false) [
  | none ↦ record (fields_of (pos 0) false) { year = pos 0 }
  | some u ↦ u
]

abbrev timegm : Tm → ℤ
timegm tm = elim (from_utc_time tm) [ none ↦ pos 0 | some t ↦ t ]

-- Summer time of one hour from 1000000 to 2000000.
abbrev standard : Localtime
standard = record { gmt_offset = pos 3600; is_dst = false; arrb_idx = 0 }

abbrev summer : Localtime
summer = record { gmt_offset = pos 7200; is_dst = true; arrb_idx = 4 }

abbrev one_summer : Data
one_summer = record {
  transitions =
      record { gmt_time = pos 1000000; local_time = pos 1007200; localtime_idx = 1 }
      ∷ (record { gmt_time = pos 2000000; local_time = pos 2003600; localtime_idx = 0 } ∷ []);
  localtimes = standard ∷ (summer ∷ []);
  abbreviation = 67 ∷ (69 ∷ (84 ∷ (0 ∷ (67 ∷ (69 ∷ (83 ∷ (84 ∷ (0 ∷ []))))))));
}

find_localtime-latest_example :
    find_localtime one_summer (at_utc (pos 1500000)) true
    ≡ zone_of one_summer (latest true (at_utc (pos 1500000)) one_summer.transitions)
find_localtime-latest_example =
    find_localtime-latest one_summer (at_utc (pos 1500000)) true ((refl, tt), (tt, tt))

in_summer :
    (find_localtime one_summer (at_utc (pos 1500000)) true ≡ some summer)
    × (find_localtime one_summer (at_local (pos 1500000 +ℤ pos 7200)) false ≡ some summer)
unfolding find_localtime lower_bound is_before_all step_back ◌+ℤ◌
in_summer = (refl, refl)

timegm_of_local :
    timegm (localised one_summer summer (gmtime (pos 1500000 +ℤ pos 7200)))
    ≡ pos 1500000 +ℤ pos 7200
unfolding from_utc_time from_utc_parts to_utc_time split_day fill_hms rem quot get_julian_day_number
    get_year_month_day year_month_day_of julian_day_of ◌+ℤ◌ ◌-ℤ◌ ◌*ℤ◌
timegm_of_local = refl

from_local_time-to_local_time_example :
    (tm : Tm) × (to_local_time gmtime timegm one_summer (pos 1500000) ≡ some tm)
    × (from_local_time gmtime timegm one_summer tm ≡ some (pos 1500000))
from_local_time-to_local_time_example =
    from_local_time-to_local_time gmtime timegm one_summer summer (pos 1500000) in_summer.0
      (omega arith) in_summer.1 timegm_of_local

abbrev summer_file : ZoneFile
summer_file = record {
  preface =
      50
      ∷ (0
          ∷ (0 ∷ (0 ∷ (0 ∷ (0 ∷ (0 ∷ (0 ∷ (0 ∷ (0 ∷ (0 ∷ (0 ∷ (0 ∷ (0 ∷ (0 ∷ (0 ∷ [])))))))))))))));
  isgmtcnt = 2;
  isstdcnt = 2;
  leapcnt = 0;
  times = 1000000 ∷ (2000000 ∷ []);
  indices = 1 ∷ (0 ∷ []);
  kinds =
      record { offset = 3600; dst = 0; name = 0 }
      ∷ (record { offset = 7200; dst = 1; name = 4 } ∷ []);
  names = 67 ∷ (69 ∷ (84 ∷ (0 ∷ (67 ∷ (69 ∷ (83 ∷ (84 ∷ (0 ∷ []))))))));
  more = 0 ∷ [];
}

summer_file-IsZoneFile : IsZoneFile summer_file
summer_file-IsZoneFile = record {
  preface_size = refl;
  words_small = (omega arith, omega arith, omega arith);
  counts_small = (omega arith, omega arith, omega arith);
  times_small = (omega arith, (omega arith, tt));
  kinds_small = (omega arith, (omega arith, tt));
  one_index = refl;
  indices_within = (omega arith, (omega arith, tt));
}

summer_file_data : data_of summer_file ≡ one_summer
unfolding ◌+ℤ◌
summer_file_data = refl

read_time_zone_file-written_example :
    read_time_zone_file (some (written summer_file)) empty ≡ some (true, data_of summer_file)
read_time_zone_file-written_example = read_time_zone_file-written summer_file summer_file-IsZoneFile

abbrev wrong_head : Bytes
wrong_head = 71 ∷ (73 ∷ (70 ∷ (56 ∷ [])))

wrong_head_throws : read_counts wrong_head ≡ none
unfolding read_counts read_bytes
wrong_head_throws = refl
