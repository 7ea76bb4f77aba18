-- ===== src/TimerQueue/Clock.antt =====
-- TimerQueue.cc: the time that `timerfd_settime` is given.
use chat.Prelude.{ℕ, ◌<◌, ◌≤◌, ◌+◌, ◌-◌, ◌*◌, ◌/◌, ◌≡◌, arith, if◌then◌else◌, ltb}
use chat.TimerQueue.{how_much_time_from_now}

-- `howMuchTimeFromNow` is a valid `timespec`, of a whole number of microseconds; it is the time up to
-- `when`, and 100 microseconds if that is less or over.
pub how_much_time_from_now_bounds :
    (when now : ℕ)
    → let t = how_much_time_from_now when now in
      (t.nanoseconds < 1000000000)
      × (t.seconds * 1000000 + t.nanoseconds / 1000
          ≡ (if ltb when (now + 100) then 100 else when - now))
      × (100 ≤ t.seconds * 1000000 + t.nanoseconds / 1000)
unfolding how_much_time_from_now
how_much_time_from_now_bounds when now = ground arith
