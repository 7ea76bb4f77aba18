-- ===== src/SudokuStat/Response.antt =====
-- excercises/sudoku/stat.h: `recordResponse`, whichever second it is for.
use chat.Prelude.{
  ap, min, ℕ, zero, length-take, suc, ◌+◌, ◌-◌, ◌/◌, ◌≤◌, ◌<◌, ◌≡◌, refl, sym, subst, ◌∙◌, arith,
  Bool, true, false, ◌||◌, some, List, [], ◌∷◌, ltb, leb, ◌==◌, if◌then◌else◌, length, take, ==_iff,
  Bool-cases, inl, inr,
}
use chat.SudokuStat.Buckets.{at, covered, Covers}
use chat.SudokuStat.Record.{Inv, Ready, here, next, next-Ready, advance-Ready, alone-Ready}
use chat.SudokuStat.Count.{Counted, count-Counted, placed, empty_list}
use chat.SudokuStat.{
  SudokuStat, advance, add_at, push_zero, jump_ahead, count_earlier, count_response,
  record_response, with_total,
}

not_covered :
    (last : ℕ) (l : List ℕ) (second n t : ℕ)
    → second + length l ≤ last
    → Covers last l t
    → at last l t ≡ at last l t + (if t == second then n else 0)
not_covered last l second n t h c =
    let miss : (t == second) ≡ false = ground arith in rw miss (omega arith)

no_step : (last second n : ℕ) → second ≤ last → n ≡ covered last second n
no_step last second n h = ground arith

one_step :
    (last second n m : ℕ)
    → m ≡ (if leb (suc n) 60 then suc n else 60)
    → n ≤ 60
    → n ≤ last
    → 0 < second
    → ((last + 1 == second) || (last == 0)) ≡ true
    → m ≡ covered last second n
one_step last second n m e full started h k = ground arith

more_steps :
    (last second n m : ℕ)
    → m ≡ (if leb (n + (second - last)) 60 then n + (second - last) else 60)
    → 0 < last
    → last < second
    → second < last + 60
    → m ≡ covered last second n
more_steps last second n m e started later near = ground arith

start_again : (last second n : ℕ) → last < second → last + 60 ≤ second → 1 ≡ covered last second n
start_again last second n later far = ground arith

at_most_60 : (n : ℕ) → min 60 n ≡ (if leb n 60 then n else 60)
at_most_60 n = ground arith

earlier_Counted :
    (second elapsed : ℕ) (s : SudokuStat)
    → Inv s
    → second ≤ s.last_second
    → (r : SudokuStat) × (count_earlier second elapsed s ≡ some r) × Counted second elapsed s r
unfolding count_earlier
earlier_Counted second elapsed s v h =
    elim (Bool-cases (leb (s.last_second + 1 - length s.requests) second)) [
      | inl e ↦
          let a =
            placed second 1 s.last_second s.requests v.started (ground (arith, v.started)) h in
          let b =
            placed second elapsed s.last_second s.latencies (omega (arith, v.started, v.sizes))
              (ground (arith, v.started, v.sizes)) h in
          let fits : ltb (second - (s.last_second + 1 - length s.requests)) (length s.requests)
              ≡ true =
            ground (arith, v.started) in
          let other : add_at (second - (s.last_second + 1 - length s.requests)) elapsed s.latencies
              ≡ some b.result =
            subst
              (λ n. add_at (second - (s.last_second + 1 - n)) elapsed s.latencies ≡ some b.result)
              (sym v.sizes) b.runs in
          (
            record s { requests = a.result; latencies = b.result },
            rw (e, fits, a.runs, other) refl,
            record {
              inv = record {
                sizes = a.same_length ∙ v.sizes ∙ sym b.same_length;
                full = omega (arith, a.same_length, v.full);
                started = omega (arith, a.same_length, v.started);
                current = λ k. omega (arith, a.same_length, v.current k);
              };
              last = ground arith;
              size = a.same_length ∙ no_step s.last_second second (length s.requests) h;
              requests = a.counts;
              latencies = b.counts;
            },
          )
      | inr e ↦ (
        s,
        rw e refl,
        record {
          inv = v;
          last = ground arith;
          size = no_step s.last_second second (length s.requests) h;
          requests =
              λ t c. not_covered s.last_second s.requests second 1 t (ground (arith, v.started)) c;
          latencies = λ t c.
              not_covered s.last_second s.latencies second elapsed t
                (ground (arith, v.started, v.sizes)) c;
        },
      )
    ]

module _ (push_back : ℕ → List ℕ → List ℕ)
    (law : (x : ℕ) (l : List ℕ) → length l ≤ 60 → push_back x l ≡ take 60 (x ∷ l)) where
  pushed_size :
      (l : List ℕ)
      → length l ≤ 60
      → length (push_back 0 l) ≡ (if leb (suc (length l)) 60 then suc (length l) else 60)
  pushed_size l h = ap length (law 0 l h) ∙ length-take 60 (0 ∷ l) ∙ at_most_60 (suc (length l))

  advance-size :
      (n : ℕ) (s : SudokuStat)
      → length s.requests ≤ 60
      → length (advance push_back n s).requests
        ≡ (if leb (length s.requests + n) 60 then length s.requests + n else 60)
  unfolding advance
  advance-size zero s h = ground arith
  advance-size (suc n) s h =
      let one = pushed_size s.requests h in
      advance-size n (next push_back law s) (ground (arith, one)) ∙ ground (arith, one)

  jump_ahead-size :
      (second : ℕ) (s : SudokuStat)
      → length s.requests ≤ 60
      → 0 < s.last_second
      → s.last_second < second
      → length (jump_ahead push_back second s).requests
        ≡ covered s.last_second second (length s.requests)
  unfolding jump_ahead
  jump_ahead-size second s h k later = elim (Bool-cases (ltb second (s.last_second + 60))) [
    | inl e ↦ rw e (
        more_steps s.last_second second (length s.requests) _
          (advance-size (second - s.last_second) s h) k later (ground arith))
    | inr e ↦ rw e (
        pushed_size [] (omega arith)
        ∙ start_again s.last_second second (length s.requests) later (ground arith))
  ]

  next_second :
      (second : ℕ) (s : SudokuStat)
      → Inv s
      → 0 < second
      → ((s.last_second + 1 == second) || (s.last_second == 0)) ≡ true
      → Ready second s (push_zero push_back (record s { last_second = second }))
  next_second second s v h e = elim (Bool-cases (s.last_second + 1 == second)) [
    | inl f ↦
        let is_next : suc s.last_second ≡ second = ground arith in
        subst (λ k. Ready k s (push_zero push_back (record s { last_second = k }))) is_next
          (next-Ready push_back law s v)
    | inr f ↦
        let zero_yet : s.last_second ≡ 0 = ground arith in
        let none_yet = empty_list s.requests (omega (arith, zero_yet, v.started)) in
        let none_else = empty_list s.latencies (omega (arith, zero_yet, v.started, v.sizes)) in
        subst
          (λ l.
            Ready second s (push_zero push_back (record s { last_second = second; requests = l })))
          (sym none_yet)
          (subst
            (λ l. Ready second s (
              push_zero push_back
                (record s { last_second = second; requests = []; latencies = l })))
            (sym none_else) (alone-Ready push_back law second s (omega (arith, zero_yet))))
  ]

  jump_ahead-Ready :
      (second : ℕ) (s : SudokuStat)
      → Inv s
      → 0 < s.last_second
      → s.last_second < second
      → Ready second s (jump_ahead push_back second s)
  unfolding jump_ahead
  jump_ahead-Ready second s v h k = elim (Bool-cases (ltb second (s.last_second + 60))) [
    | inl e ↦ rw e (advance-Ready push_back law (second - s.last_second) second s v h (omega arith))
    | inr e ↦ rw e (alone-Ready push_back law second s k)
  ]

  count_response-Counted :
      (second elapsed : ℕ) (s : SudokuStat)
      → Inv s
      → 0 < second
      → (r : SudokuStat) × (count_response push_back second elapsed s ≡ some r)
        × Counted second elapsed s r
  unfolding count_response
  count_response-Counted second elapsed s v h = elim (Bool-cases (s.last_second == second)) [
    | inl e ↦
        let same : s.last_second ≡ second = (==_iff _ _).0 e in
        let r =
          count-Counted second elapsed s s
            (subst (λ k. Ready k s s) same (here push_back law s v (omega (arith, same))))
            (omega (arith, same)) (no_step s.last_second second _ (omega (arith, same))) in
        (r.0, rw e r.1, r.2)
    | inr e ↦ elim (Bool-cases ((s.last_second + 1 == second) || (s.last_second == 0))) [
      | inl f ↦
          let r = count-Counted second elapsed s _ (next_second second s v h f) (ground arith) (
            one_step s.last_second second (length s.requests) _ (pushed_size s.requests v.full)
              v.full v.started h f) in
          (r.0, rw (e, f) r.1, r.2)
      | inr f ↦ elim (Bool-cases (ltb s.last_second second)) [
        | inl g ↦
            let started : 0 < s.last_second = ground arith in
            let r =
              count-Counted second elapsed s _ (jump_ahead-Ready second s v started (ground arith))
                (ground arith) (jump_ahead-size second s v.full started (ground arith)) in
            (r.0, rw (e, f, g) r.1, r.2)
        | inr g ↦
            let r = earlier_Counted second elapsed s v (ground arith) in
            (r.0, rw (e, f, g) r.1, r.2)
      ]
    ]
  ]

  -- A response that is timed right, at a second from 1970-01-01 00:00:01 on, in a state that keeps the
  -- invariant, where `push_back` drops the oldest of 60 elements: `recordResponse` returns and the
  -- invariant is kept. The newest element is for the later of the last second and the response's; the
  -- buffers cover what they had and the seconds up to it, 60 at most, and only the new second where
  -- they were empty or a minute or more behind. Every second that they cover has what it had, with one
  -- request and the elapsed time more for the second of the response.
  pub record_response-Counted :
      (now receive : ℕ) (solved : Bool) (s : SudokuStat)
      → Inv s
      → 1000000 ≤ now
      → receive ≤ now
      → (r : SudokuStat) × (record_response push_back now receive solved s ≡ some r)
        × Counted (now / 1000000) (now - receive) s r
  unfolding record_response
  record_response-Counted now receive solved s v h k =
      let t = with_total solved s in
      let s2 : SudokuStat = record t { total_latency = t.total_latency + (now - receive) } in
      let w : Inv s2 = record {
        sizes = v.sizes;
        full = v.full;
        started = v.started;
        current = v.current;
      } in
      let (r, runs, c) =
        count_response-Counted (now / 1000000) (now - receive) s2 w (omega arith) in
      let before : (length s.requests == length s.latencies) ≡ true = (==_iff _ _).1 v.sizes in
      let after : (length r.requests == length r.latencies) ≡ true = (==_iff _ _).1 c.inv.sizes in
      let timed : ltb now receive ≡ false = ground arith in
      (
        r,
        rw (before, timed, runs, after) refl,
        record {
          inv = c.inv;
          last = c.last;
          size = c.size;
          requests = c.requests;
          latencies = c.latencies;
        },
      )

  early_Kept :
      (now receive : ℕ) (solved : Bool) (s : SudokuStat)
      → Inv s
      → now < receive
      → (r : SudokuStat) × (record_response push_back now receive solved s ≡ some r) × Inv r
  unfolding record_response
  early_Kept now receive solved s v h =
      let t = with_total solved s in
      let before : (length s.requests == length s.latencies) ≡ true = (==_iff _ _).1 v.sizes in
      let timed : ltb now receive ≡ true = ground arith in
      (
        record t { bad_latency = suc t.bad_latency },
        rw (before, timed) refl,
        record { sizes = v.sizes; full = v.full; started = v.started; current = v.current },
      )

  pub record_response-Kept :
      (now receive : ℕ) (solved : Bool) (s : SudokuStat)
      → Inv s
      → 1000000 ≤ now
      → (r : SudokuStat) × (record_response push_back now receive solved s ≡ some r) × Inv r
  record_response-Kept now receive solved s v h = elim (Bool-cases (ltb now receive)) [
    | inl e ↦ early_Kept now receive solved s v (ground arith)
    | inr e ↦
        let (r, runs, c) = record_response-Counted now receive solved s v h (ground arith) in
        (r, runs, c.inv)
  ]
