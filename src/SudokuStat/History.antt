-- ===== src/SudokuStat/History.antt =====
-- excercises/sudoku/stat.h: what may be recorded, in any order.
use chat.Prelude.{ℕ, ◌≤◌, ◌≡◌, refl, arith, Bool, Option, some, List, [], ◌∷◌, length, take, ◌>>=◌}
use chat.SudokuStat.Record.{Inv}
use chat.SudokuStat.Response.{record_response-Kept}
use chat.SudokuStat.{
  SudokuStat, new, reset, record_response, record_request, record_bad_request,
  record_dropped_request,
}

pub data Entry : Type 0 where
  response : (now receive : ℕ) → Bool → Entry
  request bad_request dropped_request start_over : Entry

-- A response is recorded after the first second of the epoch.
abbrev pub IsTimed : List Entry → Type 0
IsTimed [] = Unit
IsTimed (response now receive solved ∷ es) = (1000000 ≤ now) × IsTimed es
IsTimed (_ ∷ es) = IsTimed es

module _ (push_back : ℕ → List ℕ → List ℕ) where
  abbrev pub enter : Entry → SudokuStat → Option SudokuStat
  enter (response now receive solved) s = record_response push_back now receive solved s
  enter request s = some (record_request s)
  enter bad_request s = some (record_bad_request s)
  enter dropped_request s = some (record_dropped_request s)
  enter start_over s = some (reset s)

  abbrev pub enter_all : List Entry → SudokuStat → Option SudokuStat
  enter_all [] s = some s
  enter_all (e ∷ es) s = enter e s >>= enter_all es

  module _ (law : (x : ℕ) (l : List ℕ) → length l ≤ 60 → push_back x l ≡ take 60 (x ∷ l)) where
    enter_all-Kept :
        (es : List Entry) (s : SudokuStat)
        → IsTimed es
        → Inv s
        → (r : SudokuStat) × (enter_all es s ≡ some r) × Inv r
    unfolding record_request record_bad_request record_dropped_request reset
    enter_all-Kept [] s h v = (s, refl, v)
    enter_all-Kept (response now receive solved ∷ es) s h v =
        let (r, runs, w) = record_response-Kept push_back law now receive solved s v h.0 in
        let (q, more, u) = enter_all-Kept es r h.1 w in (q, rw runs more, u)
    enter_all-Kept (request ∷ es) s h v =
        enter_all-Kept es (record_request s) h
          (record { sizes = v.sizes; full = v.full; started = v.started; current = v.current })
    enter_all-Kept (bad_request ∷ es) s h v =
        enter_all-Kept es (record_bad_request s) h
          (record { sizes = v.sizes; full = v.full; started = v.started; current = v.current })
    enter_all-Kept (dropped_request ∷ es) s h v =
        enter_all-Kept es (record_dropped_request s) h
          (record { sizes = v.sizes; full = v.full; started = v.started; current = v.current })
    enter_all-Kept (start_over ∷ es) s h v = enter_all-Kept es (reset s) h (record {
      sizes = refl;
      full = omega arith;
      started = omega arith;
      current = λ k. absurd (omega arith);
    })

    -- Whatever is recorded or reset, in any order, with responses after the first second of the epoch
    -- and a `push_back` that drops the oldest of 60 elements: no assertion fails, no element of an
    -- empty buffer is touched, and the two buffers have the same size of at most 60, which is not
    -- zero once there is a last second.
    pub enter_all-Inv :
        (es : List Entry) → IsTimed es → (r : SudokuStat) × (enter_all es new ≡ some r) × Inv r
    enter_all-Inv es h = enter_all-Kept es new h (record {
      sizes = refl;
      full = omega arith;
      started = omega arith;
      current = λ k. absurd (omega arith);
    })
