-- ===== src/TimerQueue/Tests.antt =====
-- Runs of TimerQueue.cc, and its theorems at concrete queues.
use chat.Prelude.{◌≡◌, refl, sym, subst, ◌∙◌, true, false, some, List, [], ◌∷◌, ◌&&◌, not, leb, ltb}
use chat.Prelude.Assoc.{lookup, put, remove}
use chat.TimerQueue.Sets.{Pair, Sorted, same, has, before, insert_pair, erase_pair, below, from}
use chat.TimerQueue.Invariant.{Inv, Kept}
use chat.TimerQueue.Cancel.{cancel_in_loop-active}
use chat.TimerQueue.Expire.{In, get_expired-exact}
use chat.TimerQueue.Renew.{Renewed}
use chat.TimerQueue.Reset.{Event, asked, events, events-Inv, reset-Renewed, set_clock}
use chat.TimerQueue.{
  Interval, Queue, new, make_timer, how_much_time_from_now, reset_timerfd, is_earliest, insert,
  add_timer_in_loop, is_free, add_timer, cancel_in_loop, erase_active, get_expired, renew,
  next_expire, reset, add, cancel, call, calls, run_expired, handle_read,
}

abbrev once : Interval
once = record { is_positive = false; microseconds = 0 }

abbrev each_millisecond : Interval
each_millisecond = record { is_positive = true; microseconds = 1000 }

-- A timer that repeats, at address 64, and one at 32 that does not and is earlier.
abbrev two_adds : List Event
two_adds = asked (add 64 5000 each_millisecond 0) ∷ (asked (add 32 3000 once 10) ∷ [])

abbrev two_timers : Queue
two_timers = record {
  heap = (64, make_timer 5000 each_millisecond 1) ∷ ((32, make_timer 3000 once 2) ∷ []);
  timers = (3000, 32) ∷ ((5000, 64) ∷ []);
  calling_expired = false;
  active = (32, 2) ∷ ((64, 1) ∷ []);
  canceling = [];
  created = 2;
  armed = some (record { seconds = 0; nanoseconds = 2990000 });
}

two_adds_run : events two_adds new ≡ some two_timers
unfolding call add_timer add_timer_in_loop insert is_free make_timer lookup put has insert_pair same
    before is_earliest reset_timerfd how_much_time_from_now
two_adds_run = refl

some_injective {ℓ} : {A : Type ℓ} {a b : A} → some a ≡ some b → a ≡ b
some_injective e = cc

two_timers-Inv : Inv (In []) two_timers
two_timers-Inv =
    let (r, runs, v) = events-Inv two_adds in
    subst (Inv (In [])) (some_injective (sym runs ∙ two_adds_run)) v

-- Both timers are due; the callback of the first cancels the second, which would repeat.
cancelled_by_callback :
    handle_read (λ p. cancel 64 1 ∷ []) 6000 6010 two_timers
    ≡ some (record {
      heap = [];
      timers = [];
      calling_expired = false;
      active = [];
      canceling = (64, 1) ∷ [];
      created = 2;
      armed = some (record { seconds = 0; nanoseconds = 2990000 });
    })
unfolding handle_read get_expired from below before is_earliest erase_active lookup has same
    erase_pair run_expired calls call cancel_in_loop insert_pair reset renew next_expire make_timer
    remove
cancelled_by_callback = refl

events-Inv_example : Kept (In []) (events two_adds new)
events-Inv_example = events-Inv two_adds

get_expired-exact_example :
    (es : List Pair) × (r : Queue) × (get_expired 4000 two_timers ≡ some (es, r))
    × ((e : Pair) → has e es ≡ (has e two_timers.timers && leb e.0 4000))
    × ((e : Pair) → has e r.timers ≡ (has e two_timers.timers && ltb 4000 e.0))
    × Sorted es
    × Inv (In es) r
get_expired-exact_example = get_expired-exact 4000 two_timers two_timers-Inv

cancel_in_loop-active_example :
    (r : Queue) × (cancel_in_loop 32 2 two_timers ≡ some r)
    × Inv (In []) r
    × ((a : Pair) → has a r.active ≡ (not (same a (32, 2)) && has a two_timers.active))
    × (false ≡ true → has (32, 2) two_timers.active ≡ false → has (32, 2) r.canceling ≡ true)
cancel_in_loop-active_example = cancel_in_loop-active (In []) 32 2 two_timers two_timers-Inv

eight_free : is_free 8 two_timers ≡ true
unfolding is_free lookup
eight_free = refl

-- The queue while both timers are called.
abbrev both_out : Queue
both_out = record two_timers { timers = []; active = [] }

abbrev both_due : List Pair
both_due = (3000, 32) ∷ ((5000, 64) ∷ [])

both_out_run : get_expired 6000 two_timers ≡ some (both_due, both_out)
unfolding get_expired from below before is_earliest erase_active lookup has same erase_pair
    make_timer
both_out_run = refl

both_out-Inv : Sorted both_due × Inv (In both_due) both_out
both_out-Inv =
    let (es, r, runs, _, _, ord, v) = get_expired-exact 6000 two_timers two_timers-Inv in
    let eq : (es, r) ≡ (both_due, both_out) = some_injective (sym runs ∙ both_out_run) in
    subst (λ x. Sorted x.0 × Inv (In x.0) x.1) eq (ord, v)

reset-Renewed_example :
    (r : Queue) × (reset 6000 6010 both_due both_out ≡ some (set_clock 6010 r))
    × Renewed 6000 both_due both_out r
    × Inv (In []) (set_clock 6010 r)
reset-Renewed_example = reset-Renewed 6000 6010 both_due both_out both_out-Inv.1 both_out-Inv.0
