-- ===== src/Date/Calendar.antt =====
-- Date.cc against the rules of the Gregorian calendar.
use chat.Prelude.{
  ap, leb, some, ◌>>=◌, ℕ, ◌+◌, ◌-◌, ◌*◌, ◌/◌, ◌%◌, ◌≤◌, ◌≡◌, refl, arith, Bool, true, not, ◌&&◌,
  ◌||◌, ◌==◌, if◌then◌else◌, ◌⊎◌, inl, inr, ◌∙◌,
}
use chat.Date.{
  int_max, largest_sum, YearMonthDay, julian_day_of, year_month_day_of, get_julian_day_number,
  get_year_month_day,
}

abbrev pub is_leap : ℕ → Bool
is_leap y = (y % 4 == 0) && (not (y % 100 == 0) || (y % 400 == 0))

abbrev pub days_in_month : (year month : ℕ) → ℕ
days_in_month year month =
    if month == 2
    then (if is_leap year then 29 else 28)
    else (if (month == 4) || ((month == 6) || ((month == 9) || (month == 11))) then 30 else 31)

pub record IsDate (t : YearMonthDay) : Type 0 where
  pub month_in : (1 ≤ t.month) × (t.month ≤ 12)
  pub day_in : (1 ≤ t.day) × (t.day ≤ days_in_month t.year t.month)

-- A year that begins in March has 365 days, and 366 before the end of February of a leap year.
long_lem :
    (y mo d a m : ℕ)
    → 1 ≤ mo
    → mo ≤ 12
    → 1 ≤ d
    → d ≤ days_in_month y mo
    → a ≡ (14 - mo) / 12
    → m ≡ mo + 12 * a - 3
    → (d + (153 * m + 2) / 5 ≤ 365) ⊎ ((d + (153 * m + 2) / 5 ≡ 366) × (a ≡ 1) × (is_leap y ≡ true))
long_lem y mo d a m h k l n e f = ground arith

leap_before_march :
    (y z : ℕ)
    → z ≡ y + 4799
    → is_leap y ≡ true
    → (z % 100 % 4 ≡ 3) × ((z % 100 ≤ 98) ⊎ (z / 100 % 4 ≡ 3))
leap_before_march y z e h = ground arith

-- How long the year of a day is: `c` centuries and `r` years from March on.
abbrev Long : (c r e : ℕ) → Type 0
Long c r e = (e ≤ 364) ⊎ ((e ≡ 365) × (r % 4 ≡ 3) × ((r ≤ 98) ⊎ (c % 4 ≡ 3)))

century_of :
    (n c r e : ℕ)
    → n ≡ e + 365 * (100 * c + r) + 25 * c + r / 4 - c + c / 4
    → r ≤ 99
    → Long c r e
    → ((4 * n + 3) / 146097 ≡ c) × (n - c * 146097 / 4 ≡ e + 365 * r + r / 4)
century_of n c r e h small long = ground arith

year_of :
    (c r e : ℕ)
    → r ≤ 99
    → Long c r e
    → ((4 * (e + 365 * r + r / 4) + 3) / 1461 ≡ r) × (e + 365 * r + r / 4 - 1461 * r / 4 ≡ e)
year_of c r e small long = ground arith

month_of :
    (y mo d a m e : ℕ)
    → 1 ≤ mo
    → mo ≤ 12
    → 1 ≤ d
    → d ≤ days_in_month y mo
    → a ≡ (14 - mo) / 12
    → m ≡ mo + 12 * a - 3
    → e + 1 ≡ d + (153 * m + 2) / 5
    → ((5 * e + 2) / 153 ≡ m)
      × (m / 10 ≡ a)
      × (m + 3 - 12 * a ≡ mo)
      × (e - (153 * m + 2) / 5 + 1 ≡ d)
      × (a ≤ 1)
month_of y mo d a m e h k l n ea em ee = ground arith

same_date :
    {y m d y' m' d' : ℕ}
    → y ≡ y'
    → m ≡ m'
    → d ≡ d'
    → (let t : YearMonthDay = record { year = y; month = m; day = d } in t)
      ≡ record { year = y'; month = m'; day = d' }
same_date p q r = rw (p, q, r) refl

-- What `getYearMonthDay` finds, part by part.
parts_of :
    (j c r e m : ℕ)
    → (4 * (j + 32044) + 3) / 146097 ≡ c
    → j + 32044 - c * 146097 / 4 ≡ e + 365 * r + r / 4
    → (4 * (e + 365 * r + r / 4) + 3) / 1461 ≡ r
    → e + 365 * r + r / 4 - 1461 * r / 4 ≡ e
    → (5 * e + 2) / 153 ≡ m
    → year_month_day_of j ≡ record {
      year = c * 100 + r + m / 10 - 4800;
      month = m + 3 - 12 * (m / 10);
      day = e - (153 * m + 2) / 5 + 1;
    }
unfolding year_month_day_of
parts_of j c r e m p q s t u = rw (p, q, s, t, u) refl

module _ (t : YearMonthDay) (v : IsDate t) where
  abbrev a : ℕ
  a = (14 - t.month) / 12

  abbrev y : ℕ
  y = t.year + 4800 - a

  abbrev m : ℕ
  m = t.month + 12 * a - 3

  abbrev e : ℕ
  e = t.day + (153 * m + 2) / 5 - 1

  abbrev j : ℕ
  j = julian_day_of t.year t.month t.day

  e-suc : e + 1 ≡ t.day + (153 * m + 2) / 5
  e-suc = omega (arith, v.day_in)

  long : Long (y / 100) (y % 100) e
  long =
      elim (long_lem t.year t.month t.day a m v.month_in.0 v.month_in.1 v.day_in.0 v.day_in.1 refl
        refl) [
          | inl short ↦ inl (omega (arith, e-suc))
          | inr (full, first, leap) ↦
              let (four, hundred) = leap_before_march t.year y (omega (arith, first)) leap in
              inr (omega (arith, e-suc, full), four, hundred)
        ]

  number :
      j + 32044
      ≡ e + 365 * (100 * (y / 100) + y % 100) + 25 * (y / 100) + y % 100 / 4 - y / 100 + y / 100 / 4
  unfolding julian_day_of
  number = ground (arith, e-suc, v.day_in)

  year_month_day_of-julian_day_of : year_month_day_of j ≡ t
  year_month_day_of-julian_day_of =
      let (c, in_century) =
        century_of (j + 32044) (y / 100) (y % 100) e number (omega arith) long in
      let (r, in_year) = year_of (y / 100) (y % 100) e (omega arith) long in
      let (mo, ten, month, day, low) =
        month_of t.year t.month t.day a m e v.month_in.0 v.month_in.1 v.day_in.0 v.day_in.1 refl
          refl e-suc in
      parts_of j (y / 100) (y % 100) e m c in_century r in_year mo
      ∙ same_date (omega (arith, ten, low)) (rw ten month) day

  sum_fits : t.year ≤ 1465000 → leb (largest_sum t.year t.month t.day) int_max ≡ true
  sum_fits h = ground (arith, e-suc, v.day_in)

  day_fits : t.year ≤ 1465000 → leb (4 * (j + 32044) + 3) int_max ≡ true
  day_fits h = ground (arith, number, e-suc, v.day_in)

  -- The date of the day number of a date of the Gregorian calendar, leap days included and up to the
  -- year 1465000, is that date, and no number on the way there and back overflows an int.
  pub get_year_month_day-get_julian_day_number :
      t.year ≤ 1465000
      → (get_julian_day_number t.year t.month t.day >>= get_year_month_day) ≡ some t
  unfolding get_julian_day_number get_year_month_day
  get_year_month_day-get_julian_day_number h =
      rw (sum_fits h, day_fits h) (ap some year_month_day_of-julian_day_of)
