-- ===== src/TimeZone.antt =====
-- TimeZone.cc: times in UTC and in a zone, the search in the table of transitions, and the reader of
-- zone files. A `time_t` is an integer. `none` is a failed assertion, an index out
-- of range or an int that overflows.
pub mod Utc
pub mod Search
pub mod Local
pub mod File
pub mod Damaged
mod Tests
use chat.Prelude.{
  ℕ, suc, ◌+◌, ◌-◌, ◌*◌, ◌/◌, ◌%◌, Bool, true, false, not, ◌&&◌, Option, none, some, List, [], ◌∷◌,
  if◌then◌else◌, ◌==◌, get_elem?, to_int, length, drop, ◌>>=◌, ◌>>◌, assert, leb,
}
use chat.Prelude.Int.{ℤ, pos, negsuc, ◌+ℤ◌, ◌-ℤ◌, ◌*ℤ◌, sub_ℕ, pos_part, quot, rem, ltb_ℤ}
use chat.Date.{
  YearMonthDay, get_julian_day_number, get_year_month_day, week_day, julian_day_of_1970_01_01,
}

-- `struct tm`; a zone's name is the characters from `tm_zone` on.
pub record Tm : Type 0 where
  pub sec : ℕ
  pub min : ℕ
  pub hour : ℕ
  pub mday : ℕ
  pub mon : ℕ
  pub year : ℤ
  pub wday : ℕ
  pub yday : ℕ
  pub is_dst : Bool
  pub gmt_offset : ℤ
  pub zone : List ℕ

abbrev pub seconds_per_day : ℕ
seconds_per_day = 86400

-- Seconds, minutes and hours.
unfoldable pub fill_hms : ℕ → ℕ × ℕ × ℕ
fill_hms seconds = (seconds % 60, seconds / 60 % 60, seconds / 60 / 60)

-- The day and the second in it, which is made positive.
unfoldable pub split_day : ℤ → ℤ × ℤ
split_day t =
    let seconds = rem t seconds_per_day in
    let days = to_int (quot t seconds_per_day) in
    if ltb_ℤ seconds (pos 0)
    then (days -ℤ pos 1, seconds +ℤ pos seconds_per_day)
    else (days, seconds)

-- The fields of a second in a day, by the day's number and date and the day from which the days of the
-- year are counted.
abbrev pub utc_fields : (second date start : ℕ) → YearMonthDay → Tm
utc_fields second date start ymd =
    let hms = fill_hms second in
    record {
      sec = hms.0;
      min = hms.1;
      hour = hms.2;
      mday = ymd.day;
      mon = ymd.month - 1;
      year = sub_ℕ ymd.year 1900;
      wday = week_day date;
      yday = date - start;
      is_dst = false;
      gmt_offset = pos 0;
      zone = 71 ∷ (77 ∷ (84 ∷ []));
    }

unfoldable pub to_utc_time : ℤ → Bool → Option Tm
to_utc_time seconds_since_epoch yday = do
  let d = split_day seconds_since_epoch
  let date = pos_part (d.0 +ℤ pos julian_day_of_1970_01_01)
  ymd ← get_year_month_day date
  start ← if yday then get_julian_day_number ymd.year 1 1 else some date
  some (utc_fields (pos_part d.1) date start ymd)

unfoldable pub from_utc_parts : (year month day hour minute seconds : ℕ) → Option ℤ
from_utc_parts year month day hour minute seconds =
    let seconds_in_day = hour * 3600 + minute * 60 + seconds in
    get_julian_day_number year month day >>= λ date.
    some (sub_ℕ date julian_day_of_1970_01_01 *ℤ pos seconds_per_day +ℤ pos seconds_in_day)

unfoldable pub from_utc_time : Tm → Option ℤ
from_utc_time utc =
    from_utc_parts (pos_part (utc.year +ℤ pos 1900)) (utc.mon + 1) utc.mday utc.hour utc.min utc.sec

pub record Transition : Type 0 where
  pub gmt_time : ℤ
  pub local_time : ℤ
  pub localtime_idx : ℕ

pub record Localtime : Type 0 where
  pub gmt_offset : ℤ
  pub is_dst : Bool
  pub arrb_idx : ℕ

pub record Data : Type 0 where
  pub transitions : List Transition
  pub localtimes : List Localtime
  pub abbreviation : List ℕ

-- `Comp`: transitions by their time in UTC, or by their local time.
abbrev pub key : Bool → Transition → ℤ
key compare_gmt t = if compare_gmt then t.gmt_time else t.local_time

abbrev pub comp : Bool → Transition → Transition → Bool
comp compare_gmt lhs rhs = ltb_ℤ (key compare_gmt lhs) (key compare_gmt rhs)

abbrev pub equal : Bool → Transition → Transition → Bool
equal compare_gmt lhs rhs = not (comp compare_gmt lhs rhs) && not (comp compare_gmt rhs lhs)

-- `std::lower_bound` in a sorted table: the index of the first entry that is not before the sentry.
unfoldable pub lower_bound : Bool → Transition → List Transition → ℕ
lower_bound gmt sentry [] = 0
lower_bound gmt sentry (t ∷ ts) = if comp gmt t sentry then suc (lower_bound gmt sentry ts) else 0

-- `comp(sentry, transitions.front())`, and true of an empty table.
unfoldable pub is_before_all : Bool → Transition → List Transition → Bool
is_before_all gmt sentry [] = true
is_before_all gmt sentry (t ∷ ts) = comp gmt sentry t

-- The entry to use where `lower_bound` has found one.
unfoldable pub step_back :
    Bool → Transition → List Transition → (index : ℕ) → Transition → Option Transition
step_back gmt sentry ts index found =
    if equal gmt sentry found
    then some found
    else (assert (not (index == 0)) >> get_elem? ts (index - 1))

unfoldable pub find_localtime : Data → Transition → Bool → Option Localtime
find_localtime zone_data sentry gmt =
    if is_before_all gmt sentry zone_data.transitions
    then get_elem? zone_data.localtimes 0
    else (elim (get_elem? zone_data.transitions (lower_bound gmt sentry zone_data.transitions)) [
      | some found ↦
          step_back gmt sentry zone_data.transitions (lower_bound gmt sentry zone_data.transitions)
            found
          >>= λ t. get_elem? zone_data.localtimes t.localtime_idx
      | none ↦ get_elem? zone_data.transitions (length zone_data.transitions - 1) >>= λ t.
          get_elem? zone_data.localtimes t.localtime_idx
    ])

-- gmtime_r(3) and timegm(3) are arguments.
module _ (gmtime : ℤ → Tm) (timegm : Tm → ℤ) where
  unfoldable pub to_local_time : Data → ℤ → Option Tm
  to_local_time zone_data seconds = do
    local ←
        find_localtime zone_data
          (record { gmt_time = seconds; local_time = pos 0; localtime_idx = 0 }) true
    assert (leb local.arrb_idx (length zone_data.abbreviation))
    some (record (gmtime (seconds +ℤ local.gmt_offset)) {
      is_dst = local.is_dst;
      gmt_offset = local.gmt_offset;
      zone = drop local.arrb_idx zone_data.abbreviation;
    })

  unfoldable pub from_local_time : Data → Tm → Option ℤ
  from_local_time zone_data local_tm = do
    let seconds = timegm local_tm
    local ←
        find_localtime zone_data
          (record { gmt_time = pos 0; local_time = seconds; localtime_idx = 0 }) false
    if local_tm.is_dst
        then (to_local_time zone_data (seconds -ℤ local.gmt_offset) >>= λ try_tm. some (
            (if not try_tm.is_dst
                && ((try_tm.hour == local_tm.hour) && (try_tm.min == local_tm.min))
              then seconds -ℤ pos 3600
              else seconds)
            -ℤ local.gmt_offset))
        else some (seconds -ℤ local.gmt_offset)

-- `TimeZone(eastOfUtc, name)`.
abbrev pub fixed : ℤ → List ℕ → Data
fixed east_of_utc name = record {
  transitions = [];
  localtimes = record { gmt_offset = east_of_utc; is_dst = false; arrb_idx = 0 } ∷ [];
  abbreviation = name;
}
