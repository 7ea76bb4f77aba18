-- ===== src/TimerQueue/Reset.antt =====
-- TimerQueue.cc: `reset` and `handleRead`, and a history of a whole queue.
use chat.Prelude.{
  ℕ, ◌≡◌, refl, ap, true, false, Option, some, List, [], ◌∷◌, arith, if◌then◌else◌, ◌>>=◌, ltb,
}
use chat.Prelude.Assoc.{lookup}
use chat.TimerQueue.Sets.{Pair, has, Sorted}
use chat.TimerQueue.Invariant.{Inv, with_rest-Inv, Kept}
use chat.TimerQueue.Add.{add_timer-Kept}
use chat.TimerQueue.Cancel.{cancel_in_loop-Kept, after_cancel, if-Inv}
use chat.TimerQueue.Expire.{In, first_in, later_in, expired, get_expired_lem}
use chat.TimerQueue.Renew.{Renewed, renew-Renewed}
use chat.TimerQueue.{
  Queue, new, Call, call, calls, add, cancel, run_expired, handle_read, reset, next_expire,
  reset_timerfd, how_much_time_from_now,
}

-- When the first entry expires, and an invalid time if there is none.
abbrev pub earliest : List Pair → ℕ
earliest [] = 0
earliest (e ∷ es) = e.0

next_expire-earliest : (q : Queue) → Inv (In []) q → next_expire q ≡ some (earliest q.timers)
unfolding next_expire
next_expire-earliest q v = go q.timers (λ e h. let w = v.waiting e h in rw w.at (ap some w.expires))
  where
    go :
        (l : List Pair)
        → ((e : Pair) → has e l ≡ true → (lookup e.1 q.heap >>= λ t. some t.expiration) ≡ some e.0)
        → (elim l [ [] ↦ some 0 | e ∷ es ↦ lookup e.1 q.heap >>= λ t. some t.expiration ])
          ≡ some (earliest l)
    go [] f = refl
    go (e ∷ es) f = f e (first_in e es)

abbrev pub set_clock : ℕ → Queue → Queue
set_clock later r =
    if ltb 0 (earliest r.timers) then reset_timerfd (earliest r.timers) later r else r

reset_timerfd-Inv :
    (P : Pair → Type 0) (when now : ℕ) (q : Queue) → Inv P q → Inv P (reset_timerfd when now q)
unfolding reset_timerfd
reset_timerfd-Inv P when now q v =
    with_rest-Inv P q q.calling_expired q.canceling q.created
      (some (how_much_time_from_now when now)) v

-- `reset` of expired timers that are alive and in neither set returns: those that repeat and were not
-- cancelled are restarted and active again, the others are deleted, every other timer is as it was,
-- the invariant holds with no timer out, and the clock is set to the earliest time, if there is one.
pub reset-Renewed :
    (now later : ℕ) (es : List Pair) (q : Queue)
    → Inv (In es) q
    → Sorted es
    → (r : Queue) × (reset now later es q ≡ some (set_clock later r))
      × Renewed now es q r
      × Inv (In []) (set_clock later r)
unfolding reset
reset-Renewed now later es q v ord =
    let (r, runs, o) = renew-Renewed now es q v ord in
    (
      r,
      rw (runs, next_expire-earliest r o.inv) refl,
      o,
      if-Inv (In []) (ltb 0 (earliest r.timers)) (reset_timerfd (earliest r.timers) later r) r
          (reset_timerfd-Inv (In []) (earliest r.timers) later r o.inv) o.inv,
    )

call-Kept : (P : Pair → Type 0) (c : Call) (q : Queue) → Inv P q → Kept P (call c q)
unfolding call
call-Kept P (add p when interval now) q v = add_timer-Kept P p when interval now q v
call-Kept P (cancel p s) q v =
    let (runs, w) = cancel_in_loop-Kept P p s q v in (after_cancel p s q, runs, w)

pub calls-Kept : (P : Pair → Type 0) (cs : List Call) (q : Queue) → Inv P q → Kept P (calls cs q)
unfolding calls
calls-Kept P [] q v = (q, refl, v)
calls-Kept P (c ∷ cs) q v =
    let (r, runs, w) = call-Kept P c q v in
    let (s, more, u) = calls-Kept P cs r w in (s, rw runs more, u)

run_expired-Kept :
    (P : Pair → Type 0) (callback : ℕ → List Call) (es : List Pair) (q : Queue)
    → ((e : Pair) → has e es ≡ true → P e)
    → Inv P q
    → Kept P (run_expired callback es q)
unfolding run_expired
run_expired-Kept P callback [] q f v = (q, refl, v)
run_expired-Kept P callback (e ∷ es) q f v =
    let o = v.expired e (f e (first_in e es)) in
    let (r, runs, w) = calls-Kept P (callback e.1) q v in
    let (s, more, u) = run_expired-Kept P callback es r (λ x h. f x (later_in x e es h)) w in
    (s, rw (o.at, runs) more, u)

pub handle_read-Kept :
    (callback : ℕ → List Call) (now later : ℕ) (q : Queue)
    → Inv (In []) q
    → Kept (In []) (handle_read callback now later q)
unfolding handle_read
handle_read-Kept callback now later q v =
    let (r, got, w, _, ord) = get_expired_lem now q v in
    let es = expired now q v in
    let r1 : Queue = record r { calling_expired = true; canceling = [] } in
    let (s, runs, u) =
      run_expired-Kept (In es) callback es r1 (λ e h. h)
        (with_rest-Inv (In es) r true [] r.created r.armed w) in
    let s1 : Queue = record s { calling_expired = false } in
    let (t, done, o, end) =
      reset-Renewed now later es s1 (with_rest-Inv (In es) s false s.canceling s.created s.armed u)
        ord in
    (set_clock later t, rw (got, runs) done, end)

-- What happens to a queue: a call from the loop, or the alarm of its clock.
pub data Event : Type 0 where
  asked : Call → Event
  alarm : (callback : ℕ → List Call) (now later : ℕ) → Event

abbrev pub event : Event → Queue → Option Queue
event (asked c) q = call c q
event (alarm callback now later) q = handle_read callback now later q

abbrev pub events : List Event → Queue → Option Queue
events [] q = some q
events (e ∷ es) q = event e q >>= events es

new-Inv : Inv (In []) new
unfolding has lookup
new-Inv = record {
  timers_sorted = tt;
  active_sorted = tt;
  sizes = refl;
  waiting = λ e h. absurd (ground arith);
  listed = λ a h. absurd (ground arith);
  expired = λ e h. absurd (ground arith);
  fits = λ p t h. absurd (ground arith);
}

event-Kept : (e : Event) (q : Queue) → Inv (In []) q → Kept (In []) (event e q)
event-Kept (asked c) q v = call-Kept (In []) c q v
event-Kept (alarm callback now later) q v = handle_read-Kept callback now later q v

events-Kept : (es : List Event) (q : Queue) → Inv (In []) q → Kept (In []) (events es q)
events-Kept [] q v = (q, refl, v)
events-Kept (e ∷ es) q v =
    let (r, runs, w) = event-Kept e q v in
    let (s, more, u) = events-Kept es r w in (s, rw runs more, u)

-- From a new queue, whatever timers are added, at any addresses that are free, whatever is cancelled,
-- also by the callbacks of expired timers, and whenever the clock alarms: no assertion fails, no
-- timer is used that is not there, and `timers_` and `activeTimers_` hold the same timers.
pub events-Inv : (es : List Event) → Kept (In []) (events es new)
events-Inv es = events-Kept es new new-Inv
