-- ===== src/Date/Round.antt =====
-- Date.cc: the two conversions undo each other.
use chat.Prelude.{ℕ, ◌+◌, ◌-◌, ◌*◌, ◌/◌, ◌≤◌, ◌≡◌, refl, arith}
use chat.Date.{
  int_max, largest_sum, YearMonthDay, julian_day_of, year_month_day_of, julian_day_of_1970_01_01,
}

julian_1970 : julian_day_of 1970 1 1 ≡ julian_day_of_1970_01_01
unfolding julian_day_of
julian_1970 = refl

-- The day inside its four centuries, its century and its four years.
century_lem :
    (a b c : ℕ)
    → b ≡ (4 * a + 3) / 146097
    → c ≡ a - b * 146097 / 4
    → (c ≤ 36524) × (a ≡ c + 36524 * b + b / 4)
century_lem a b c h k = omega arith

year_lem :
    (c d e : ℕ)
    → c ≤ 36524
    → d ≡ (4 * c + 3) / 1461
    → e ≡ c - 1461 * d / 4
    → (d ≤ 99) × (e ≤ 365) × (c ≡ e + 365 * d + d / 4)
year_lem c d e h k l = omega arith

month_lem :
    (e m : ℕ)
    → e ≤ 365
    → m ≡ (5 * e + 2) / 153
    → (m ≤ 11) × ((153 * m + 2) / 5 ≤ e) × (e - (153 * m + 2) / 5 ≤ 30)
month_lem e m h k = omega arith

leap_days :
    (b d : ℕ)
    → d ≤ 99
    → let y = b * 100 + d in (y / 4 ≡ 25 * b + d / 4) × (y / 100 ≡ b) × (y / 400 ≡ b / 4)
leap_days b d h = omega arith

month_back :
    (m : ℕ)
    → m ≤ 11
    → let month = m + 3 - 12 * (m / 10) in
      (1 ≤ month) × (month ≤ 12) × ((14 - month) / 12 ≡ m / 10) × (month + 12 * (m / 10) - 3 ≡ m)
month_back m h = omega arith

-- The parts of a day number, as `getYearMonthDay` takes them one from the other.
pub record Parts (j : ℕ) : Type 0 where
  pub b : ℕ
  pub d : ℕ
  pub e : ℕ
  pub m : ℕ
  pub of_b : b ≡ (4 * (j + 32044) + 3) / 146097
  pub of_d : d ≡ (4 * (j + 32044 - b * 146097 / 4) + 3) / 1461
  pub of_e : e ≡ j + 32044 - b * 146097 / 4 - 1461 * d / 4
  pub of_m : m ≡ (5 * e + 2) / 153

pub parts : (j : ℕ) → Parts j
parts j = record {
  b = (4 * (j + 32044) + 3) / 146097;
  d = (4 * (j + 32044 - (4 * (j + 32044) + 3) / 146097 * 146097 / 4) + 3) / 1461;
  e =
      j
      + 32044
      - (4 * (j + 32044) + 3) / 146097 * 146097 / 4
      - 1461 * ((4 * (j + 32044 - (4 * (j + 32044) + 3) / 146097 * 146097 / 4) + 3) / 1461) / 4;
  m =
      (5
          * (j
              + 32044
              - (4 * (j + 32044) + 3) / 146097 * 146097 / 4
              - 1461
                * ((4 * (j + 32044 - (4 * (j + 32044) + 3) / 146097 * 146097 / 4) + 3) / 1461)
                / 4)
        + 2)
      / 153;
  of_b = refl;
  of_d = refl;
  of_e = refl;
  of_m = refl;
}

module _ (j : ℕ) (p : Parts j) where
  abbrev pub found : YearMonthDay
  found = record {
    year = p.b * 100 + p.d + p.m / 10 - 4800;
    month = p.m + 3 - 12 * (p.m / 10);
    day = p.e - (153 * p.m + 2) / 5 + 1;
  }

  pub year_month_day_of-parts : year_month_day_of j ≡ found
  unfolding year_month_day_of
  year_month_day_of-parts = rw (p.of_m, p.of_e, p.of_d, p.of_b) refl

  abbrev rest : ℕ
  rest = j + 32044 - p.b * 146097 / 4

  sum_of_parts :
      (j + 32044 ≡ p.e + 365 * p.d + p.d / 4 + 36524 * p.b + p.b / 4) × (p.d ≤ 99) × (p.e ≤ 365)
  sum_of_parts =
      let (small, whole) = century_lem (j + 32044) p.b rest p.of_b refl in
      let (d, e, c) = year_lem rest p.d p.e small p.of_d p.of_e in (omega arith, d, e)

  year_back : 1721060 ≤ j → p.b * 100 + p.d + p.m / 10 - 4800 + 4800 - p.m / 10 ≡ p.b * 100 + p.d
  year_back h =
      let (whole, d, e) = sum_of_parts in
      let (m, fits, day) = month_lem p.e p.m e p.of_m in omega (arith, p.of_m)

  found_back : 1721060 ≤ j → julian_day_of found.year found.month found.day ≡ j
  unfolding julian_day_of
  found_back h =
      let (whole, d, e) = sum_of_parts in
      let (m, fits, day) = month_lem p.e p.m e p.of_m in
      let (_, _, a, back) = month_back p.m m in
      let (y4, y100, y400) = leap_days p.b p.d d in
      rw (a, back, year_back h, y4, y100, y400) (omega arith)

-- With its year's numbers an int holds all that `getJulianDayNumber` computes.
pub largest_sum-fits :
    (j : ℕ)
    → 1721060 ≤ j
    → j ≤ 536838867
    → let t = year_month_day_of j in largest_sum t.year t.month t.day ≤ int_max
largest_sum-fits j h k =
    let p = parts j in
    let (whole, d, e) = sum_of_parts j p in
    let (m, fits, day) = month_lem p.e p.m e p.of_m in
    let (_, _, a, back) = month_back p.m m in
    let (y4, y100, y400) = leap_days p.b p.d d in
    rw (year_month_day_of-parts j p, a, back, year_back j p h, y4) (omega arith)

-- A day number is that of its year, month and day, which are in their ranges, from the first day of
-- the year 0 on.
pub julian_day_of-year_month_day_of :
    (j : ℕ)
    → 1721060 ≤ j
    → let t = year_month_day_of j in
      (julian_day_of t.year t.month t.day ≡ j)
      × (1 ≤ t.month)
      × (t.month ≤ 12)
      × (1 ≤ t.day)
      × (t.day ≤ 31)
julian_day_of-year_month_day_of j h =
    let p = parts j in
    let (whole, d, e) = sum_of_parts j p in
    let (m, fits, day) = month_lem p.e p.m e p.of_m in
    let (low, high, _, _) = month_back p.m m in
    rw (year_month_day_of-parts j p) (found_back j p h, low, high, omega arith, omega arith)
