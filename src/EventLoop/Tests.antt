-- ===== src/EventLoop/Tests.antt =====
-- EventLoop.cc: functor 1 queues 2 and 3.
use chat.Prelude.{ℕ, ◌≡◌, ◌==◌, if◌then◌else◌, false, List, [], ◌∷◌}
use chat.EventLoop.{EventLoop, do_pending_functors}
use chat.EventLoop.Pending.{bodies, do_pending_functors_lem}

abbrev body : ℕ → List ℕ
body f = if f == 1 then 2 ∷ 3 ∷ [] else []

abbrev waiting : EventLoop ℕ
waiting = record { pending = 1 ∷ 4 ∷ []; calling = false; wakeups = 0; ran = [] }

do_pending_functors_lem_example :
    let l' = do_pending_functors body waiting in
    (l'.ran ≡ 1 ∷ 4 ∷ []) × (l'.pending ≡ 2 ∷ 3 ∷ []) × (l'.calling ≡ false) × (l'.wakeups ≡ 2)
unfolding bodies
do_pending_functors_lem_example = do_pending_functors_lem body waiting
