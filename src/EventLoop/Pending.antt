-- ===== src/EventLoop/Pending.antt =====
-- EventLoop.cc: what one round of pending functors does.
use chat.Prelude.{
  ◌+◌, ◌≡◌, refl, sym, ap, ◌∙◌, true, false, List, [], ◌∷◌, ◌++◌, arith, length, length-append,
  append-nil, append_assoc,
}
use chat.EventLoop.{EventLoop, queue_in_loop, queue_each, call, call_each, do_pending_functors}

module _ {ℓ} {F : Type ℓ} (body : F → List F) where
  -- What the functors of a list queue, in order.
  unfoldable pub bodies : List F → List F
  bodies [] = []
  bodies (f ∷ fs) = body f ++ bodies fs

  -- The middle of a round: between `l` and `l'`, functors were called and others queued.
  record Later (called queued : List F) (l l' : EventLoop F) : Type ℓ where
    pending : l'.pending ≡ l.pending ++ queued
    calling : l'.calling ≡ true
    wakeups : l'.wakeups ≡ l.wakeups + length queued
    ran : l'.ran ≡ l.ran ++ called

  Later-same : (l : EventLoop F) → l.calling ≡ true → Later [] [] l l
  Later-same l c = record {
    pending = sym (append-nil l.pending);
    calling = c;
    wakeups = omega arith;
    ran = sym (append-nil l.ran);
  }

  Later-trans :
      (a b c d : List F) (l l' l'' : EventLoop F)
      → Later a b l l'
      → Later c d l' l''
      → Later (a ++ c) (b ++ d) l l''
  Later-trans a b c d l l' l'' x y = record {
    pending = y.pending ∙ ap (λ xs. xs ++ d) x.pending ∙ append_assoc l.pending b d;
    calling = y.calling;
    wakeups = omega (arith, x.wakeups, y.wakeups, length-append b d);
    ran = y.ran ∙ ap (λ xs. xs ++ c) x.ran ∙ append_assoc l.ran a c;
  }

  queue_in_loop-Later :
      (g : F) (l : EventLoop F)
      → l.calling ≡ true
      → Later [] (g ∷ []) l (queue_in_loop body true g l)
  unfolding queue_in_loop
  queue_in_loop-Later g l c =
      rw c (record { pending = refl; calling = refl; wakeups = refl; ran = sym (append-nil l.ran) })

  queue_each-Later :
      (gs : List F) (l : EventLoop F) → l.calling ≡ true → Later [] gs l (queue_each body gs l)
  unfolding queue_each
  queue_each-Later [] l c = Later-same l c
  queue_each-Later (g ∷ gs) l c =
      let first = queue_in_loop-Later g l c in
      Later-trans [] (g ∷ []) [] gs l (queue_in_loop body true g l) _ first
        (queue_each-Later gs (queue_in_loop body true g l) first.calling)

  call-Later :
      (f : F) (l : EventLoop F) → l.calling ≡ true → Later (f ∷ []) (body f) l (call body f l)
  unfolding call
  call-Later f l c =
      let queued = queue_each-Later (body f) (record l { ran = l.ran ++ (f ∷ []) }) c in
      record {
        pending = queued.pending;
        calling = queued.calling;
        wakeups = queued.wakeups;
        ran = queued.ran ∙ append-nil (l.ran ++ (f ∷ []));
      }

  call_each-Later :
      (fs : List F) (l : EventLoop F)
      → l.calling ≡ true
      → Later fs (bodies fs) l (call_each body fs l)
  unfolding call_each bodies
  call_each-Later [] l c = Later-same l c
  call_each-Later (f ∷ fs) l c =
      let first = call-Later f l c in
      Later-trans (f ∷ []) (body f) fs (bodies fs) l (call body f l) _ first
        (call_each-Later fs (call body f l) first.calling)

  -- One round calls just the functors that waited, each once and in order. Those that they queue wait
  -- for the next round, in order, and each of them has woken the loop up, so that it does not sleep.
  pub do_pending_functors_lem :
      (l : EventLoop F)
      → let l' = do_pending_functors body l in
        (l'.ran ≡ l.ran ++ l.pending)
        × (l'.pending ≡ bodies l.pending)
        × (l'.calling ≡ false)
        × (l'.wakeups ≡ l.wakeups + length (bodies l.pending))
  unfolding do_pending_functors
  do_pending_functors_lem l =
      let done = call_each-Later l.pending (record l { calling = true; pending = [] }) refl in
      (done.ran, done.pending, refl, done.wakeups)
