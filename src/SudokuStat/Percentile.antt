-- ===== src/SudokuStat/Percentile.antt =====
-- excercises/sudoku/percentile.h: the nearest rank.
use chat.Prelude.{
  ℕ, zero, suc, ◌+◌, ◌-◌, ◌*◌, ◌/◌, ◌≤◌, ◌<◌, ◌≡◌, refl, arith, true, some, List, [], ◌∷◌, ltb,
  length, get_elem?,
}
use chat.SudokuStat.{get_percentile}

element : (l : List ℕ) (i : ℕ) → i < length l → (x : ℕ) × (get_elem? l i ≡ some x)
element [] i h = absurd (omega arith)
element (x ∷ l) zero h = (x, refl)
element (x ∷ l) (suc i) h = element l i (omega arith)

nonzero : (n p : ℕ) → 0 < n → 1 ≤ p → 1 ≤ n * p
nonzero zero p h k = absurd (omega arith)
nonzero (suc n) p h k = grind arith

times_mono : (n p : ℕ) → p ≤ 100 → n * p ≤ n * 100
times_mono n p h = grind arith

-- `getPercentile` of some latencies at 1 to 100 per cent returns the element of the nearest rank: the
-- smallest rank whose share of the latencies is at least the percentage.
pub get_percentile_rank :
    (l : List ℕ) (percent : ℕ)
    → 0 < length l
    → 1 ≤ percent
    → percent ≤ 100
    → (i : ℕ) × (x : ℕ) × (get_percentile l percent ≡ some x)
      × (get_elem? l i ≡ some x)
      × (length l * percent ≤ (i + 1) * 100)
      × (i * 100 < length l * percent)
unfolding get_percentile
get_percentile_rank l percent h low high =
    let n = length l * percent in
    let some_rank : 1 ≤ n = nonzero (length l) percent h low in
    let bounded : n ≤ length l * 100 = times_mono (length l) percent high in
    let i = (n + 99) / 100 - 1 in
    let inside : i < length l = omega arith in
    let (x, found) = element l i inside in
    let filled : ltb 0 (length l) ≡ true = ground arith in
    let positive : ltb 0 percent ≡ true = ground arith in
    let fits : ltb i (length l) ≡ true = ground arith in
    (i, x, rw (filled, positive, fits, found) refl, found, omega arith, omega arith)
