-- ===== src/SudokuStat/Tests.antt =====
-- Runs of stat.h and percentile.h, and their theorems at concrete states.
use chat.Prelude.{
  ℕ, ◌+◌, ◌*◌, ◌≤◌, ◌<◌, ◌≡◌, refl, arith, true, false, some, List, [], ◌∷◌, take, get_elem?,
}
use chat.SudokuStat.Record.{Inv}
use chat.SudokuStat.Count.{Counted}
use chat.SudokuStat.Response.{record_response-Counted}
use chat.SudokuStat.History.{Entry, response, request, dropped_request, enter_all, enter_all-Inv}
use chat.SudokuStat.Percentile.{get_percentile_rank}
use chat.SudokuStat.{
  SudokuStat, new, record_response, count_response, jump_ahead, advance, add_to_back,
  record_request, record_dropped_request, reset, get_percentile,
}

abbrev push : ℕ → List ℕ → List ℕ
push x l = take 60 (x ∷ l)

-- Seconds 100 and 103, with nothing in between.
abbrev two_responses : List Entry
two_responses =
    request
    ∷ (response 100500000 100400000 true
        ∷ (response 103000000 102000000 false ∷ (dropped_request ∷ [])))

abbrev busy : SudokuStat
busy = record {
  last_second = 103;
  requests = 1 ∷ (0 ∷ (0 ∷ (1 ∷ [])));
  latencies = 1000000 ∷ (0 ∷ (0 ∷ (100000 ∷ [])));
  total_requests = 1;
  total_responses = 2;
  total_solved = 1;
  bad_requests = 0;
  dropped_requests = 1;
  total_latency = 1100000;
  bad_latency = 0;
}

two_responses_run : enter_all push two_responses new ≡ some busy
unfolding record_response count_response jump_ahead advance add_to_back record_request
    record_dropped_request
two_responses_run = refl

-- What was dropped is still counted after a reset.
dropped_stays : (reset busy).dropped_requests ≡ 1
unfolding reset
dropped_stays = refl

busy-Inv : Inv busy
busy-Inv = record {
  sizes = refl;
  full = omega arith;
  started = omega arith;
  current = λ h. omega arith;
}

record_response-Counted_example :
    (r : SudokuStat) × (record_response push 101000000 100999000 true busy ≡ some r)
    × Counted 101 1000 busy r
record_response-Counted_example =
    record_response-Counted push (λ x l h. refl) 101000000 100999000 true busy busy-Inv
      (omega arith) (omega arith)

enter_all-Inv_example : (r : SudokuStat) × (enter_all push two_responses new ≡ some r) × Inv r
enter_all-Inv_example =
    enter_all-Inv push (λ x l h. refl) two_responses (omega arith, (omega arith, tt))

abbrev latencies : List ℕ
latencies = 10 ∷ (20 ∷ (30 ∷ (40 ∷ [])))

median : get_percentile latencies 50 ≡ some 20
unfolding get_percentile
median = refl

get_percentile_rank_example :
    (i : ℕ) × (x : ℕ) × (get_percentile latencies 90 ≡ some x)
    × (get_elem? latencies i ≡ some x)
    × (360 ≤ (i + 1) * 100)
    × (i * 100 < 360)
get_percentile_rank_example =
    get_percentile_rank latencies 90 (omega arith) (omega arith) (omega arith)
