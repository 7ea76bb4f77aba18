-- ===== src/EventLoop.antt =====
-- EventLoop.cc: the functors that wait in a loop. What a functor does beside queueing others is its
-- own affair; `body` gives the functors that it queues, in order. Other threads are calls from
-- outside the loop's thread, one at a time under the lock.
pub mod Pending
mod Tests
use chat.Prelude.{ℕ, suc, ◌+◌, Bool, true, false, not, ◌||◌, List, [], ◌∷◌, ◌++◌, if◌then◌else◌}

pub record EventLoop {ℓ} (F : Type ℓ) : Type ℓ where
  pub pending : List F
  pub calling : Bool  -- `callingPendingFunctors_`
  pub wakeups : ℕ  -- writes to the wakeup descriptor
  pub ran : List F  -- the functors that were called, in order

module _ {ℓ} {F : Type ℓ} (body : F → List F) where
  unfoldable pub queue_in_loop : Bool → F → EventLoop F → EventLoop F
  queue_in_loop in_thread f l =
      let l₁ : EventLoop F = record l { pending = l.pending ++ (f ∷ []) } in
      if not in_thread || l.calling then record l₁ { wakeups = l₁.wakeups + 1 } else l₁

  -- The functors that a functor queues, from inside the loop.
  unfoldable pub queue_each : List F → EventLoop F → EventLoop F
  queue_each [] l = l
  queue_each (g ∷ gs) l = queue_each gs (queue_in_loop true g l)

  -- `cb()`.
  unfoldable pub call : F → EventLoop F → EventLoop F
  call f l = queue_each (body f) (record l { ran = l.ran ++ (f ∷ []) })

  unfoldable pub run_in_loop : Bool → F → EventLoop F → EventLoop F
  run_in_loop true f l = call f l
  run_in_loop false f l = queue_in_loop false f l

  -- The loop over the functors that were swapped out.
  unfoldable pub call_each : List F → EventLoop F → EventLoop F
  call_each [] l = l
  call_each (f ∷ fs) l = call_each fs (call f l)

  unfoldable pub do_pending_functors : EventLoop F → EventLoop F
  do_pending_functors l = record (call_each l.pending (record l { calling = true; pending = [] })) {
    calling = false;
  }
