-- ===== src/Connector/Tests.antt =====
-- Connector.cc: small runs.
use chat.Prelude.{◌>>=◌, ℕ, ◌≡◌, refl, true, false, not, ◌&&◌, some, List, [], ◌∷◌}
use chat.Connector.{
  fire, cancel, stop, Connector, new, connecting, Errno, refused, unreachable, in_progress, start,
  start_in_loop, handle_write, is_disconnected, connect, after_connect, begin_connecting,
  has_channel,
}
use chat.Connector.Delay.{AllTemporary, IsWaiting, backoff, backoffs, is_temporary}
use chat.Connector.Invariant.{Inv}
use chat.Connector.Steps.{Run, created, next, started, step, CanHappen, Run-Inv}
use chat.Connector.Settle.{Settled, handle_write-Settled}

abbrev waiting : Connector
waiting = record new { connect_wanted = true }

waiting-IsWaiting : IsWaiting 0 waiting
unfolding backoff
waiting-IsWaiting = record { wanted = refl; idle = refl; delay = refl }

abbrev two_tries : List (Errno × ℕ)
two_tries = (refused, 5) ∷ (unreachable, 6) ∷ []

two_tries-AllTemporary : AllTemporary two_tries
unfolding AllTemporary is_temporary
two_tries-AllTemporary = (refl, (refl, tt))

two_delays : backoffs 0 2 ≡ 500 ∷ 1000 ∷ []
unfolding backoffs backoff
two_delays = refl

abbrev trying : Connector
trying = record new {
  connect_wanted = true;
  state = connecting;
  channel = some 5;
  watched = true;
  live = 5 ∷ [];
}

trying-Run : Run trying
unfolding CanHappen step start start_in_loop is_disconnected connect after_connect begin_connecting
    has_channel
trying-Run = next (started true in_progress 5) created tt refl

Run-Inv_example : Inv trying
Run-Inv_example = Run-Inv trying-Run

handle_write-Settled_example :
    (fd : ℕ) × (c' : Connector) × (trying.channel ≡ some fd)
    × (handle_write true false trying ≡ some c')
    × Settled (not true && not false) fd trying c'
handle_write-Settled_example = handle_write-Settled true false trying (Run-Inv trying-Run) refl

-- Without the timer nothing fails.
no_timer :
    (start true in_progress 6 (stop new) >>= fire refused 7 >>= λ c. some c.live) ≡ some (6 ∷ [])
unfolding start stop cancel fire start_in_loop is_disconnected connect after_connect
    begin_connecting has_channel
no_timer = refl
