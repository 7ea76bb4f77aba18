-- ===== src/SudokuStat/Record.antt =====
-- excercises/sudoku/stat.h: a response is counted in the bucket of its second.
use chat.Prelude.{
  ℕ, zero, suc, ◌+◌, ◌≤◌, ◌<◌, ◌≡◌, refl, sym, ap, subst, arith, List, [], ◌∷◌, length, take,
  length-take,
}
use chat.SudokuStat.Buckets.{
  Same, Same_refl, Same_trans, pushed, pushed-length, pushed-Same, alone-Same,
}
use chat.SudokuStat.{SudokuStat, push_zero, advance}

-- The invariant in the comments of the code, with the size that keeps seconds positive.
pub record Inv (s : SudokuStat) : Type 0 where
  pub sizes : length s.requests ≡ length s.latencies
  pub full : length s.requests ≤ 60
  pub started : length s.requests ≤ s.last_second
  pub current : 0 < s.last_second → 0 < length s.requests

-- A state whose newest elements are for `second`, and that forgot no second it still covers.
pub record Ready (second : ℕ) (s p : SudokuStat) : Type 0 where
  pub inv : Inv p
  pub now : p.last_second ≡ second
  pub filled : 0 < length p.requests
  pub requests : Same s.last_second s.requests p.last_second p.requests
  pub latencies : Same s.last_second s.latencies p.last_second p.latencies

module _ (push_back : ℕ → List ℕ → List ℕ)
    (law : (x : ℕ) (l : List ℕ) → length l ≤ 60 → push_back x l ≡ take 60 (x ∷ l)) where
  -- One turn of the loop.
  abbrev pub next : SudokuStat → SudokuStat
  next s = let t = push_zero push_back s in record t { last_second = suc t.last_second }

  pub next-Ready : (s : SudokuStat) → Inv s → Ready (suc s.last_second) s (next s)
  next-Ready s v =
      let r = law 0 s.requests v.full in
      let l = law 0 s.latencies (omega (arith, v.full, v.sizes)) in
      let size : length (push_back 0 s.requests) ≡ length (pushed s.requests) = ap length r in
      let other : length (push_back 0 s.latencies) ≡ length (pushed s.latencies) = ap length l in
      record {
        inv = record {
          sizes = omega (
            arith,
            size,
            other,
            v.sizes,
            length-take 60 (0 ∷ s.requests),
            length-take 60 (0 ∷ s.latencies),
          );
          full = omega (arith, size, pushed-length s.requests);
          started = omega (arith, size, pushed-length s.requests, v.started);
          current = λ h. omega (arith, size, pushed-length s.requests);
        };
        now = refl;
        filled = omega (arith, size, pushed-length s.requests);
        requests =
            subst (Same s.last_second s.requests (suc s.last_second)) (sym r)
              (pushed-Same s.last_second s.requests);
        latencies =
            subst (Same s.last_second s.latencies (suc s.last_second)) (sym l)
              (pushed-Same s.last_second s.latencies);
      }

  Ready-trans : (a b : ℕ) (s p q : SudokuStat) → Ready a s p → Ready b p q → Ready b s q
  Ready-trans a b s p q v w = record {
    inv = w.inv;
    now = w.now;
    filled = w.filled;
    requests = Same_trans _ _ _ _ _ _ v.requests w.requests;
    latencies = Same_trans _ _ _ _ _ _ v.latencies w.latencies;
  }

  pub here : (s : SudokuStat) → Inv s → 0 < s.last_second → Ready s.last_second s s
  here s v h = record {
    inv = v;
    now = refl;
    filled = v.current h;
    requests = Same_refl s.last_second s.requests;
    latencies = Same_refl s.last_second s.latencies;
  }

  pub advance-Ready :
      (n second : ℕ) (s : SudokuStat)
      → Inv s
      → 0 < s.last_second
      → s.last_second + n ≡ second
      → Ready second s (advance push_back n s)
  unfolding advance
  advance-Ready zero second s v h e = subst (λ k. Ready k s s) (omega (arith, e)) (here s v h)
  advance-Ready (suc n) second s v h e =
      let w = next-Ready s v in
      Ready-trans (suc s.last_second) second s (next s) (advance push_back n (next s)) w
        (advance-Ready n second (next s) w.inv (omega arith) (omega (arith, e)))

  -- Buffers with one element, for a second later than all.
  pub alone-Ready :
      (second : ℕ) (s : SudokuStat)
      → s.last_second < second
      → Ready second s
          (push_zero push_back (record s { requests = []; latencies = []; last_second = second }))
  alone-Ready second s h =
      let e = law 0 [] (omega arith) in
      let size : length (push_back 0 []) ≡ 1 = ap length e in
      record {
        inv = record {
          sizes = refl;
          full = omega (arith, size);
          started = omega (arith, size);
          current = λ k. omega (arith, size);
        };
        now = refl;
        filled = omega (arith, size);
        requests =
            subst (Same s.last_second s.requests second) (sym e)
              (alone-Same s.last_second second s.requests h);
        latencies =
            subst (Same s.last_second s.latencies second) (sym e)
              (alone-Same s.last_second second s.latencies h);
      }
