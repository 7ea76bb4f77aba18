-- ===== src/SudokuStat/Buckets.antt =====
-- excercises/sudoku/stat.h: one circular buffer, by the second that each of its elements counts.
use chat.Prelude.{
  ◌||◌, ℕ, zero, suc, ◌+◌, ◌-◌, ◌≤◌, ◌<◌, ◌≡◌, refl, sym, ◌∙◌, arith, true, List, [], ◌∷◌, leb,
  ◌==◌, if◌then◌else◌, length, take, set, length-take, Bool-cases, inl, inr,
}

-- An element, and zero outside the list.
abbrev pub get_or_zero : List ℕ → ℕ → ℕ
get_or_zero [] i = 0
get_or_zero (x ∷ l) zero = x
get_or_zero (x ∷ l) (suc i) = get_or_zero l i

-- What the buffer has for second `t`, when its newest element is for second `last`.
abbrev pub at : (last : ℕ) → List ℕ → ℕ → ℕ
at last l t = if leb t last then get_or_zero l (last - t) else 0

-- The seconds that the buffer has elements for.
abbrev pub Covers : (last : ℕ) → List ℕ → ℕ → Type 0
Covers last l t = (last < t + length l) × (t ≤ last)

-- How many seconds a buffer covers behind a step to `second`, when its newest element is for `last`:
-- those that it had and those up to the new one, 60 at most; an empty buffer, or one that is left
-- behind by a minute or more, starts again at the new second.
abbrev pub covered : (last second size : ℕ) → ℕ
covered last second size =
    if leb second last
    then size
    else if (last == 0) || leb (last + 60) second
    then 1
    else if leb (size + (second - last)) 60
    then size + (second - last)
    else 60

-- A later buffer that has the same for every second that it covers.
pub record Same (last : ℕ) (l : List ℕ) (last' : ℕ) (l' : List ℕ) : Type 0 where
  pub later : last ≤ last'
  pub first_later : last + length l' ≤ last' + length l
  pub same : (t : ℕ) → Covers last' l' t → at last' l' t ≡ at last l t

at_after : (last : ℕ) (l : List ℕ) (t : ℕ) → last < t → at last l t ≡ 0
at_after last l t h = ground arith

pub Same_refl : (last : ℕ) (l : List ℕ) → Same last l last l
Same_refl last l = record { later = omega arith; first_later = omega arith; same = λ t h. refl }

pub Same_trans : (a b c : ℕ) (k l m : List ℕ) → Same a k b l → Same b l c m → Same a k c m
Same_trans a b c k l m v w = record {
  later = omega (arith, v.later, w.later);
  first_later = omega (arith, v.first_later, w.first_later);
  same = λ t h. elim (Bool-cases (leb t b)) [
    | inl e ↦ w.same t h ∙ v.same t (ground (arith, w.first_later), ground arith)
    | inr e ↦
        let past : b < t = ground arith in
        w.same t h ∙ at_after b l t past ∙ sym (at_after a k t (omega (arith, v.later)))
  ];
}

get_take : (n i : ℕ) (l : List ℕ) → i < n → get_or_zero (take n l) i ≡ get_or_zero l i
get_take zero i l h = absurd (omega arith)
get_take (suc n) i [] h = refl
get_take (suc n) zero (x ∷ l) h = refl
get_take (suc n) (suc i) (x ∷ l) h = get_take n i l (omega arith)

abbrev pub pushed : List ℕ → List ℕ
pushed l = take 60 (0 ∷ l)

pub pushed-length :
    (l : List ℕ)
    → (length (pushed l) ≤ 60) × (length (pushed l) ≤ suc (length l)) × (0 < length (pushed l))
pushed-length l = (
  omega (arith, length-take 60 (0 ∷ l)),
  omega (arith, length-take 60 (0 ∷ l)),
  omega (arith, length-take 60 (0 ∷ l)),
)

get_pushed : (l : List ℕ) (i : ℕ) → i < 60 → get_or_zero (pushed l) i ≡ get_or_zero (0 ∷ l) i
get_pushed l i h = get_take 60 i (0 ∷ l) h

-- The next second.
pub pushed-Same : (last : ℕ) (l : List ℕ) → Same last l (suc last) (pushed l)
pushed-Same last l = record {
  later = omega arith;
  first_later = omega (arith, pushed-length l);
  same = λ t h. elim (Bool-cases (leb t last)) [
    | inl e ↦
        let inside : suc (last - t) < 60 = ground (arith, pushed-length l) in
        let below : leb t (suc last) ≡ true = ground arith in
        let step : suc last - t ≡ suc (last - t) = ground arith in
        rw (below, e, step) (get_pushed l (suc (last - t)) inside)
    | inr e ↦ let step : suc last - t ≡ 0 = ground arith in rw (e, step) (ground arith)
  ];
}

-- A second that is new to an empty buffer, or later than all of the buffer, which is emptied.
pub alone-Same : (last second : ℕ) (l : List ℕ) → last < second → Same last l second (0 ∷ [])
alone-Same last second l h = record {
  later = omega arith;
  first_later = omega arith;
  same = λ t c.
      let is_second : t ≡ second = omega arith in
      let step : second - t ≡ 0 = omega arith in
      let within : leb t second ≡ true = ground arith in
      rw (within, step) (sym (at_after last l t (omega arith)));
}

-- `back() += n`.
pub at_back :
    (last n x : ℕ) (l : List ℕ) (t : ℕ)
    → Covers last (x ∷ l) t
    → at last ((x + n) ∷ l) t ≡ at last (x ∷ l) t + (if t == last then n else 0)
at_back last n x l t c = elim (Bool-cases (t == last)) [
  | inl e ↦
      let step : last - t ≡ 0 = ground arith in
      let within : leb t last ≡ true = ground arith in rw (within, step, e) refl
  | inr e ↦ rw e (go (last - t) (ground arith))
]
  where
    go :
        (i : ℕ)
        → 0 < i
        → (if leb t last then get_or_zero ((x + n) ∷ l) i else 0)
          ≡ (if leb t last then get_or_zero (x ∷ l) i else 0) + 0
    go zero h = absurd (omega arith)
    go (suc i) h = omega arith

pub get_set :
    (l : List ℕ) (k i v : ℕ)
    → k < length l
    → get_or_zero (set l k v) i ≡ (if i == k then v else get_or_zero l i)
get_set [] k i v h = absurd (omega arith)
get_set (x ∷ l) zero zero v h = refl
get_set (x ∷ l) zero (suc i) v h = ground arith
get_set (x ∷ l) (suc k) zero v h = ground arith
get_set (x ∷ l) (suc k) (suc i) v h = get_set l k i v (omega arith) ∙ ground arith
