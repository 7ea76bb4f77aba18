-- ===== src/SudokuStat.antt =====
-- excercises/sudoku/stat.h and percentile.h: the counters of the sudoku server. Times are in
-- microseconds since the epoch and not before it. A circular buffer is the list of its elements from
-- the newest second to the oldest, and `push_back` of boost's circular_buffer is an argument; `none` is a failed assertion or the last element of an empty buffer.
pub mod Buckets
pub mod Record
pub mod Count
pub mod Response
pub mod History
pub mod Percentile
mod Tests
use chat.Prelude.{
  ℕ, zero, suc, ◌+◌, ◌-◌, ◌*◌, ◌/◌, ◌||◌, Bool, true, false, Option, none, some, List, [], ◌∷◌, ltb,
  leb, ◌==◌, if◌then◌else◌, ◌>>=◌, ◌>>◌, assert, length, set, get_elem?,
}

abbrev pub k_seconds : ℕ
k_seconds = 60

pub record SudokuStat : Type 0 where
  pub last_second : ℕ
  pub requests : List ℕ
  pub latencies : List ℕ
  pub total_requests : ℕ
  pub total_responses : ℕ
  pub total_solved : ℕ
  pub bad_requests : ℕ
  pub dropped_requests : ℕ
  pub total_latency : ℕ
  pub bad_latency : ℕ

abbrev pub new : SudokuStat
new = record {
  last_second = 0;
  requests = [];
  latencies = [];
  total_requests = 0;
  total_responses = 0;
  total_solved = 0;
  bad_requests = 0;
  dropped_requests = 0;
  total_latency = 0;
  bad_latency = 0;
}

-- `back() += n`.
unfoldable pub add_to_back : ℕ → List ℕ → Option (List ℕ)
add_to_back n [] = none
add_to_back n (x ∷ l) = some ((x + n) ∷ l)

-- `[idx] += n`, where 0 is the oldest element.
unfoldable pub add_at : ℕ → ℕ → List ℕ → Option (List ℕ)
add_at idx n l = do x ← get_elem? l (length l - 1 - idx); some (set l (length l - 1 - idx) (x + n))

abbrev pub count : ℕ → SudokuStat → Option SudokuStat
count elapsed_us s = do
  requests ← add_to_back 1 s.requests
  latencies ← add_to_back elapsed_us s.latencies
  some (record s { requests = requests; latencies = latencies })

unfoldable pub count_earlier : (second elapsed_us : ℕ) → SudokuStat → Option SudokuStat
count_earlier second elapsed_us s =
    let first_second = s.last_second + 1 - length s.requests in
    if leb first_second second
    then (assert (ltb (second - first_second) (length s.requests)) >>= λ _.
        add_at (second - first_second) 1 s.requests >>= λ requests.
        add_at (second - first_second) elapsed_us s.latencies >>= λ latencies.
        some (record s { requests = requests; latencies = latencies }))
    else some s

abbrev pub with_total : Bool → SudokuStat → SudokuStat
with_total solved s = record s {
  total_responses = suc s.total_responses;
  total_solved = if solved then suc s.total_solved else s.total_solved;
}

-- The elements after a `push_back`.
module _ (push_back : ℕ → List ℕ → List ℕ) where
  abbrev pub push_zero : SudokuStat → SudokuStat
  push_zero s = record s { requests = push_back 0 s.requests; latencies = push_back 0 s.latencies }

  -- The loop up to a later second, which is `n` seconds away.
  unfoldable pub advance : ℕ → SudokuStat → SudokuStat
  advance zero s = s
  advance (suc n) s =
      let t = push_zero s in advance n (record t { last_second = suc t.last_second })

  unfoldable pub jump_ahead : ℕ → SudokuStat → SudokuStat
  jump_ahead second s =
      if ltb second (s.last_second + k_seconds)
      then advance (second - s.last_second) s
      else push_zero (record s { requests = []; latencies = []; last_second = second })

  unfoldable pub count_response : (second elapsed_us : ℕ) → SudokuStat → Option SudokuStat
  count_response second elapsed_us s =
      if s.last_second == second
      then count elapsed_us s
      else (if (s.last_second + 1 == second) || (s.last_second == 0)
          then count elapsed_us (push_zero (record s { last_second = second }))
          else (if ltb s.last_second second
              then count elapsed_us (jump_ahead second s)
              else count_earlier second elapsed_us s))

  unfoldable pub record_response : (now receive : ℕ) → Bool → SudokuStat → Option SudokuStat
  record_response now receive solved s = do
    assert (length s.requests == length s.latencies)
    let t = with_total solved s
    if ltb now receive
        then some (record t { bad_latency = suc t.bad_latency })
        else (count_response (now / 1000000) (now - receive)
              (record t { total_latency = t.total_latency + (now - receive) })
            >>= λ r. (assert (length r.requests == length r.latencies) >> some r))

unfoldable pub record_request : SudokuStat → SudokuStat
record_request s = record s { total_requests = suc s.total_requests }

unfoldable pub record_bad_request : SudokuStat → SudokuStat
record_bad_request s = record s { bad_requests = suc s.bad_requests }

unfoldable pub record_dropped_request : SudokuStat → SudokuStat
record_dropped_request s = record s { dropped_requests = suc s.dropped_requests }

-- `droppedRequests_` is not among what is reset.
unfoldable pub reset : SudokuStat → SudokuStat
reset s = record s {
  last_second = 0;
  requests = [];
  latencies = [];
  total_requests = 0;
  total_responses = 0;
  total_solved = 0;
  bad_requests = 0;
  total_latency = 0;
  bad_latency = 0;
}

abbrev pub sum : List ℕ → ℕ
sum [] = 0
sum (x ∷ l) = sum l + x

-- The averages of `report`.
unfoldable pub latency_avg_60s : SudokuStat → ℕ
latency_avg_60s s = if sum s.requests == 0 then 0 else sum s.latencies / sum s.requests

unfoldable pub latency_avg : SudokuStat → ℕ
latency_avg s = if s.total_responses == 0 then 0 else s.total_latency / s.total_responses

-- `Percentile::getPercentile`: the nearest rank in sorted latencies.
unfoldable pub get_percentile : List ℕ → ℕ → Option ℕ
get_percentile latencies percent = do
  assert (ltb 0 (length latencies))
  let idx = if ltb 0 percent then (length latencies * percent + 99) / 100 - 1 else 0
  assert (ltb idx (length latencies))
  get_elem? latencies idx
