-- ===== src/Connector/Steps.antt =====
-- Connector.cc: any sequence of calls of the user and of the loop.
use chat.Prelude.{
  ℕ, suc, ◌≡◌, ◌≢◌, refl, sym, ap, ◌∙◌, subst, Bool, true, false, Option, none, some, List, [], ◌∷◌,
  ◌++◌, arith, Every, Bool-cases, inl, inr,
}
use chat.Connector.{
  Connector, new, disconnected, connecting, connected, Errno, Functor, start_later, reset_later,
  init_retry_delay, without, retry, start_in_loop, start, restart, stop, cancel,
  remove_and_reset_channel, reset_channel, finish_write, handle_write, handle_error,
}
use chat.Connector.Invariant.{
  AllInBounds, resets, due, attempt, idle, Inv, Holds, start_in_loop-Inv, retry-Inv,
  resets_snoc_reset, resets_snoc_start, without_self, connected≢connecting, disconnected≢connecting,
}

-- What can happen: calls of the user, and what the loop runs. The errors are those of a connect(2)
-- that the call makes, and `fd` is the descriptor of its socket.
pub data Event : Type 0 where
  started : Bool → Errno → ℕ → Event
  stopped : Event
  restarted : Errno → ℕ → Event
  timer_fired : Errno → ℕ → Event
  queue_runs : Errno → ℕ → Event
  writable : Bool → Bool → Event
  error_raised : Event

-- The oldest functor that waits in the loop.
unfoldable pub run_queued : List Functor → Errno → ℕ → Connector → Option Connector
run_queued [] e fd c = some c
run_queued (start_later ∷ q) e fd c = start_in_loop e fd (record c { queued = q })
run_queued (reset_later ∷ q) e fd c = some (reset_channel (record c { queued = q }))

unfoldable pub step : Event → Connector → Option Connector
step (started inside e fd) c = start inside e fd c
step stopped c = some (stop c)
step (restarted e fd) c = restart e fd c
step (timer_fired e fd) c = start_in_loop e fd c
step (queue_runs e fd) c = run_queued c.queued e fd c
step (writable failed self) c = handle_write failed self c
step error_raised c = handle_error c

-- The poller reports only a channel that it watches, and `restart` is for a connection that is over.
unfoldable pub CanHappen : Event → Connector → Type 0
CanHappen (started inside e fd) c = Unit {0}
CanHappen stopped c = Unit {0}
CanHappen (restarted e fd) c = c.state ≢ connecting
CanHappen (timer_fired e fd) c = Unit {0}
CanHappen (queue_runs e fd) c = Unit {0}
CanHappen (writable failed self) c = c.watched ≡ true
CanHappen error_raised c = c.watched ≡ true

-- The connector behind `removeAndResetChannel`.
abbrev pub removed : Connector → Connector
removed c = record c { watched = false; queued = c.queued ++ (reset_later ∷ []) }

-- A watched channel belongs to an attempt.
pub record Attempts (fd : ℕ) (c : Connector) : Type 0 where
  pub trying : c.state ≡ connecting
  pub found : c.channel ≡ some fd
  pub holds : Holds fd (removed c)

pub Attempts-of : (c : Connector) → Inv c → c.watched ≡ true → (fd : ℕ) × Attempts fd c
unfolding due
Attempts-of c v on = elim v.phase [
  | idle _ off _ _ ↦ absurd (ground (arith, on, off))
  | attempt fd st ch _ one zeroed ↦ (
    fd,
    record {
      trying = st;
      found = ch;
      holds = record {
        bounded = v.bounded;
        all_bounded = v.all_bounded;
        unwatched = refl;
        one = one;
        coming = resets_snoc_reset c.queued ∙ ap suc zeroed ∙ sym (ap due ch);
      };
    },
  )
]

pub handle_write_attempt :
    (failed self : Bool) (fd : ℕ) (c : Connector)
    → Attempts fd c
    → handle_write failed self c ≡ some (finish_write failed self fd (removed c))
unfolding handle_write remove_and_reset_channel
handle_write_attempt failed self fd c a = ground (arith, a.trying, a.found)

pub handle_error_attempt :
    (fd : ℕ) (c : Connector) → Attempts fd c → handle_error c ≡ some (retry fd (removed c))
unfolding handle_error remove_and_reset_channel
handle_error_attempt fd c a = ground (arith, a.trying, a.found)

over-Inv :
    (fd : ℕ) (wanted : Bool) (given : List ℕ) (c : Connector)
    → Holds fd c
    → Inv (record c {
      connect_wanted = wanted;
      state = connected;
      live = without fd c.live;
      given = given;
    })
over-Inv fd wanted given c h = record {
  bounded = h.bounded;
  all_bounded = h.all_bounded;
  phase = idle connected≢connecting h.unwatched (without_self fd c.live h.one) h.coming;
}

finish_write-Inv :
    (failed self : Bool) (fd : ℕ) (c : Connector) → Holds fd c → Inv (finish_write failed self fd c)
unfolding finish_write
finish_write-Inv true self fd c h = retry-Inv fd c h
finish_write-Inv false true fd c h = retry-Inv fd c h
finish_write-Inv false false fd c h = elim (Bool-cases c.connect_wanted) [
  | inl w ↦ rw w (over-Inv fd true (c.given ++ (fd ∷ [])) c h)
  | inr w ↦ rw w (over-Inv fd false c.given c h)
]

queue-Inv :
    (q : List Functor) (wanted : Bool) (c : Connector)
    → resets q ≡ resets c.queued
    → Inv c
    → Inv (record c { connect_wanted = wanted; queued = q })
queue-Inv q wanted c same v = record {
  bounded = v.bounded;
  all_bounded = v.all_bounded;
  phase = elim v.phase [
    | attempt fd st ch on one zeroed ↦ attempt fd st ch on one (same ∙ zeroed)
    | idle ne off none_live coming ↦ idle ne off none_live (same ∙ coming)
  ];
}

restarted-Inv :
    (c : Connector)
    → c.state ≢ connecting
    → Inv c
    → Inv (record c { state = disconnected; retry_delay = init_retry_delay; connect_wanted = true })
restarted-Inv c ne v = record {
  bounded = (omega arith, omega arith);
  all_bounded = v.all_bounded;
  phase = elim v.phase [
    | attempt fd st _ _ _ _ ↦ absurd (ne st)
    | idle _ off none_live coming ↦ idle disconnected≢connecting off none_live coming
  ];
}

none_left : (o : Option ℕ) {n : ℕ} → suc n ≡ due o → n ≡ 0
unfolding due
none_left none e = omega (arith, e)
none_left (some fd) e = omega (arith, e)

reset-Inv :
    (q : List Functor) (c : Connector)
    → c.queued ≡ reset_later ∷ q
    → Inv c
    → Inv (record c { queued = q; channel = none })
unfolding due resets
reset-Inv q c e v = record {
  bounded = v.bounded;
  all_bounded = v.all_bounded;
  phase = elim v.phase [
    | attempt fd st ch on one zeroed ↦ absurd (ground (arith, zeroed, ap resets e))
    | idle ne off none_live coming ↦
        idle ne off none_live (none_left c.channel (sym (ap resets e) ∙ coming))
  ];
}

run_queued-Inv :
    (q : List Functor) (e : Errno) (fd : ℕ) (c : Connector)
    → c.queued ≡ q
    → Inv c
    → Every Inv (run_queued q e fd c)
unfolding run_queued resets
run_queued-Inv [] e fd c same v = v
run_queued-Inv (start_later ∷ q) e fd c same v =
    start_in_loop-Inv e fd (record c { queued = q })
      (queue-Inv q c.connect_wanted c (sym (ap resets same)) v)
run_queued-Inv (reset_later ∷ q) e fd c same v = reset-Inv q c same v

start-Inv :
    (inside : Bool) (e : Errno) (fd : ℕ) (c : Connector) → Inv c → Every Inv (start inside e fd c)
unfolding start
start-Inv true e fd c v =
    start_in_loop-Inv e fd (record c { connect_wanted = true }) (queue-Inv c.queued true c refl v)
start-Inv false e fd c v =
    queue-Inv (c.queued ++ (start_later ∷ [])) true c (resets_snoc_start c.queued) v

-- Whatever happens, a call that passes its assertions keeps the invariant.
pub step-Inv : (x : Event) (c : Connector) → CanHappen x c → Inv c → Every Inv (step x c)
unfolding step CanHappen restart stop cancel
step-Inv (started inside e fd) c can v = start-Inv inside e fd c v
step-Inv stopped c can v = queue-Inv c.queued false c refl v
step-Inv (restarted e fd) c can v = start_in_loop-Inv e fd _ (restarted-Inv c can v)
step-Inv (timer_fired e fd) c can v = start_in_loop-Inv e fd c v
step-Inv (queue_runs e fd) c can v = run_queued-Inv c.queued e fd c refl v
step-Inv (writable failed self) c can v =
    let at = Attempts-of c v can in
    rw (handle_write_attempt failed self at.0 c at.1)
      (finish_write-Inv failed self at.0 (removed c) at.1.holds)
step-Inv error_raised c can v =
    let at = Attempts-of c v can in
    rw (handle_error_attempt at.0 c at.1) (retry-Inv at.0 (removed c) at.1.holds)

-- Any run, from a new connector.
pub data Run : Connector → Type 0 where
  created : Run new
  next : {c c' : Connector} (x : Event) → Run c → CanHappen x c → step x c ≡ some c' → Run c'

-- Every connector that can arise keeps its delays between 500 and 30000 milliseconds and loses no
-- socket: it has none outside an attempt, and during an attempt just the one that its watched channel
-- holds, so that each socket before was closed or given away.
pub Run-Inv : {c : Connector} → Run c → Inv c
unfolding AllInBounds resets due
Run-Inv created = record {
  bounded = (omega arith, omega arith);
  all_bounded = tt;
  phase = idle disconnected≢connecting refl refl refl;
}
Run-Inv (next {c} {c'} x r can e) = subst (Every Inv) e (step-Inv x c can (Run-Inv r))
