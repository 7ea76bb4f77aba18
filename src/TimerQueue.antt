-- ===== src/TimerQueue.antt =====
-- TimerQueue.cc, Timer.h and Timer.cc: the timers of an event loop, in its loop thread. A timer is an
-- address in a heap of its own; `none` is a failed assertion or the use of a timer that is not there.
-- A time is in microseconds since the epoch, as in Timestamp.h, and is not before it; an interval is
-- the `int64_t` that `addTime` makes of it. The clock's answers, the addresses of operator new and what
-- a callback asks of the queue are arguments.
pub mod Sets
pub mod Invariant
pub mod Add
pub mod Erase
pub mod Cancel
pub mod Expire
pub mod Renew
pub mod Reset
pub mod Clock
mod Tests
use chat.Prelude.{
  ℕ, suc, ◌+◌, ◌-◌, ◌*◌, ◌/◌, ◌%◌, ◌^◌, Bool, true, false, not, ◌&&◌, Option, none, some, List, [],
  ◌∷◌, ltb, ◌==◌, if◌then◌else◌, ◌>>=◌, ◌>>◌, assert, length,
}
use chat.Prelude.Assoc.{lookup, put, remove}
use chat.TimerQueue.Sets.{Pair, has, insert_pair, erase_pair, below, from}

-- A `double` of seconds, by what the code asks of it: `interval > 0.0`, and the whole microseconds that
-- `addTime` adds.
pub record Interval : Type 0 where
  pub is_positive : Bool
  pub microseconds : ℕ

pub record Timer : Type 0 where
  pub expiration : ℕ
  pub interval : Interval
  pub repeat : Bool
  pub sequence : ℕ

pub record TimeSpec : Type 0 where
  pub seconds : ℕ
  pub nanoseconds : ℕ

pub record Queue : Type 0 where
  pub heap : List (ℕ × Timer)  -- the timers that were made and not deleted
  pub timers : List Pair  -- expiration and address
  pub calling_expired : Bool
  pub active : List Pair  -- address and sequence
  pub canceling : List Pair
  pub created : ℕ  -- `s_numCreated_`
  pub armed : Option TimeSpec  -- what `timerfd_settime` was last given

abbrev pub uintptr_max : ℕ
uintptr_max = 2 ^ 64 - 1

abbrev pub new : Queue
new = record {
  heap = [];
  timers = [];
  calling_expired = false;
  active = [];
  canceling = [];
  created = 0;
  armed = none;
}

unfoldable pub make_timer : ℕ → Interval → ℕ → Timer
make_timer when interval sequence = record {
  expiration = when;
  interval = interval;
  repeat = interval.is_positive;
  sequence = sequence;
}

unfoldable pub restart : ℕ → Timer → Timer
restart now t = record t { expiration = if t.repeat then now + t.interval.microseconds else 0 }

unfoldable pub how_much_time_from_now : (when now : ℕ) → TimeSpec
how_much_time_from_now when now =
    let microseconds = if ltb (when - now) 100 then 100 else when - now in
    record { seconds = microseconds / 1000000; nanoseconds = microseconds % 1000000 * 1000 }

unfoldable pub reset_timerfd : (expiration now : ℕ) → Queue → Queue
reset_timerfd expiration now q = record q { armed = some (how_much_time_from_now expiration now) }

abbrev pub same_size : Queue → Bool
same_size q = length q.timers == length q.active

-- Whether a time is before the first entry.
unfoldable pub is_earliest : ℕ → List Pair → Bool
is_earliest when [] = true
is_earliest when (e ∷ s) = ltb when e.0

unfoldable pub insert : ℕ → Queue → Option (Bool × Queue)
insert p q = do
  assert (same_size q)
  t ← lookup p q.heap
  assert (not (has (t.expiration, p) q.timers))
  assert (not (has (p, t.sequence) q.active))
  let r = record q {
    timers = insert_pair (t.expiration, p) q.timers;
    active = insert_pair (p, t.sequence) q.active;
  }
  assert (same_size r)
  some (is_earliest t.expiration q.timers, r)

unfoldable pub add_timer_in_loop : (p now : ℕ) → Queue → Option Queue
add_timer_in_loop p now q = do
  inserted ← insert p q
  t ← lookup p inserted.1.heap
  some (if inserted.0 then reset_timerfd t.expiration now inserted.1 else inserted.1)

-- Operator new does not return an address that is in use, nor the largest one; for such a `p`
-- there is no call.
unfoldable pub is_free : ℕ → Queue → Bool
is_free p q = ltb p uintptr_max && elim (lookup p q.heap) [ none ↦ true | some t ↦ false ]

unfoldable pub add_timer : (p when : ℕ) (interval : Interval) (now : ℕ) → Queue → Option Queue
add_timer p when interval now q =
    if is_free p q
    then (let t = make_timer when interval (suc q.created) in
        add_timer_in_loop p now (record q { heap = put p t q.heap; created = suc q.created }))
    else some q

unfoldable pub cancel_active : (p sequence : ℕ) → Queue → Option Queue
cancel_active p sequence q = do
  t ← lookup p q.heap
  assert (has (t.expiration, p) q.timers)
  some (record q {
    heap = remove p q.heap;
    timers = erase_pair (t.expiration, p) q.timers;
    active = erase_pair (p, sequence) q.active;
  })

unfoldable pub cancel_in_loop : (p sequence : ℕ) → Queue → Option Queue
cancel_in_loop p sequence q = do
  assert (same_size q)
  r ←
      if has (p, sequence) q.active
      then cancel_active p sequence q
      else some (
          if q.calling_expired
          then record q { canceling = insert_pair (p, sequence) q.canceling }
          else q)
  assert (same_size r)
  some r

unfoldable pub erase_active : List Pair → Queue → Option Queue
erase_active [] q = some q
erase_active (e ∷ es) q = do
  t ← lookup e.1 q.heap
  assert (has (e.1, t.sequence) q.active)
  erase_active es (record q { active = erase_pair (e.1, t.sequence) q.active })

unfoldable pub get_expired : ℕ → Queue → Option (List Pair × Queue)
get_expired now q = do
  assert (same_size q)
  let rest = from (now, uintptr_max) q.timers
  assert (is_earliest now rest)
  let expired = below (now, uintptr_max) q.timers
  r ← erase_active expired (record q { timers = rest })
  assert (same_size r)
  some (expired, r)

unfoldable pub renew : ℕ → List Pair → Queue → Option Queue
renew now [] q = some q
renew now (e ∷ es) q = do
  t ← lookup e.1 q.heap
  r ←
      if t.repeat && not (has (e.1, t.sequence) q.canceling)
      then (insert e.1 (record q { heap = put e.1 (restart now t) q.heap }) >>= λ a. some a.1)
      else some (record q { heap = remove e.1 q.heap })
  renew now es r

-- The expiration of the first entry's timer, and an invalid time if there is none.
unfoldable pub next_expire : Queue → Option ℕ
next_expire q = elim q.timers [
  | [] ↦ some 0
  | e ∷ es ↦ lookup e.1 q.heap >>= λ t. some t.expiration
]

unfoldable pub reset : (now later : ℕ) → List Pair → Queue → Option Queue
reset now later expired q = do
  r ← renew now expired q
  next ← next_expire r
  some (if ltb 0 next then reset_timerfd next later r else r)

-- What a callback asks of the queue.
pub data Call : Type 0 where
  add : (p when : ℕ) (interval : Interval) (now : ℕ) → Call
  cancel : (p sequence : ℕ) → Call

unfoldable pub call : Call → Queue → Option Queue
call (add p when interval now) q = add_timer p when interval now q
call (cancel p sequence) q = cancel_in_loop p sequence q

unfoldable pub calls : List Call → Queue → Option Queue
calls [] q = some q
calls (c ∷ cs) q = call c q >>= calls cs

-- The callbacks of the expired timers, each read from its timer.
unfoldable pub run_expired : (ℕ → List Call) → List Pair → Queue → Option Queue
run_expired callback [] q = some q
run_expired callback (e ∷ es) q = do
  t ← lookup e.1 q.heap
  r ← calls (callback e.1) q
  run_expired callback es r

unfoldable pub handle_read : (ℕ → List Call) → (now later : ℕ) → Queue → Option Queue
handle_read callback now later q = do
  got ← get_expired now q
  s ← run_expired callback got.0 (record got.1 { calling_expired = true; canceling = [] })
  reset now later got.0 (record s { calling_expired = false })
