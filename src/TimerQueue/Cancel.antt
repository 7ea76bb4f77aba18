-- ===== src/TimerQueue/Cancel.antt =====
-- TimerQueue.cc: `cancelInLoop` on every branch.
use chat.Prelude.{
  ℕ, ◌≡◌, refl, sym, ap, subst, ◌∙◌, Bool, true, false, not, ◌&&◌, none, some, List, length,
  Bool-cases, inl, inr, ◌==◌, if◌then◌else◌, ==_iff,
}
use chat.Prelude.Assoc.{lookup, remove}
use chat.TimerQueue.Sets.{
  Pair, same, has, insert_pair, erase_pair, same→≡, same_refl, has-erase_pair, has-insert_pair,
}
use chat.TimerQueue.Invariant.{Inv, with_heap, with_rest-Inv, remove-Inv}
use chat.TimerQueue.Erase.{
  erased, erased-Inv, erased-Idle, erased_sizes, erased_waits, active_others,
}
use chat.TimerQueue.{Timer, Queue, cancel_active, cancel_in_loop}

abbrev cancelled : ℕ → Timer → Queue → Queue
cancelled p t q = with_heap (remove p q.heap) (erased p t q)

cancelled-Inv :
    (P : Pair → Type 0) (p : ℕ) (t : Timer) (q : Queue)
    → Inv P q
    → lookup p q.heap ≡ some t
    → has (p, t.sequence) q.active ≡ true
    → Inv P (cancelled p t q)
cancelled-Inv P p t q v at h =
    remove-Inv P p (erased p t q) (erased-Inv P p t q v at h) (erased-Idle P p t q v at h)
      (active_others P p t q v at h)

-- A timer that waits is cancelled: it leaves both sets and is deleted.
cancel_waiting :
    (P : Pair → Type 0) (p : ℕ) (t : Timer) (q : Queue)
    → Inv P q
    → lookup p q.heap ≡ some t
    → has (p, t.sequence) q.active ≡ true
    → cancel_in_loop p t.sequence q ≡ some (cancelled p t q)
unfolding cancel_in_loop cancel_active
cancel_waiting P p t q v at h =
    let before : (length q.timers == length q.active) ≡ true = (==_iff _ _).1 v.sizes in
    let after : (length (erased p t q).timers == length (erased p t q).active) ≡ true =
      (==_iff _ _).1 (erased_sizes P p t q v at h) in
    rw (before, h, at, erased_waits P p t q v at h, after) refl

-- What `cancelInLoop` does to a queue, on every branch.
abbrev pub after_cancel : (p s : ℕ) → Queue → Queue
after_cancel p s q =
    if has (p, s) q.active
    then record q {
      heap = remove p q.heap;
      timers = elim (lookup p q.heap) [
        | none ↦ q.timers
        | some t ↦ erase_pair (t.expiration, p) q.timers
      ];
      active = erase_pair (p, s) q.active;
    }
    else (if q.calling_expired then record q { canceling = insert_pair (p, s) q.canceling } else q)

cancel_absent :
    (P : Pair → Type 0) (p s : ℕ) (q : Queue)
    → Inv P q
    → has (p, s) q.active ≡ false
    → cancel_in_loop p s q
      ≡ some
          (if q.calling_expired then record q { canceling = insert_pair (p, s) q.canceling } else q)
unfolding cancel_in_loop
cancel_absent P p s q v h =
    let before : (length q.timers == length q.active) ≡ true = (==_iff _ _).1 v.sizes in
    elim (Bool-cases q.calling_expired) [
      | inl e ↦ rw (before, h, e, before) refl
      | inr e ↦ rw (before, h, e, before) refl
    ]

pub if-Inv :
    (P : Pair → Type 0) (b : Bool) (r q : Queue) → Inv P r → Inv P q → Inv P (if b then r else q)
if-Inv P true r q v w = v
if-Inv P false r q v w = w

pub cancel_in_loop-Kept :
    (P : Pair → Type 0) (p s : ℕ) (q : Queue)
    → Inv P q
    → (cancel_in_loop p s q ≡ some (after_cancel p s q)) × Inv P (after_cancel p s q)
cancel_in_loop-Kept P p s q v = elim (Bool-cases (has (p, s) q.active)) [
  | inl e ↦
      let o = v.listed (p, s) e in
      let h : has (p, o.timer.sequence) q.active ≡ true =
        subst (λ x. has (p, x) q.active ≡ true) (sym o.numbered) e in
      let eq : cancelled p o.timer q ≡ after_cancel p s q = rw (e, o.at, o.numbered) refl in
      (
        ap (λ n. cancel_in_loop p n q) (sym o.numbered)
            ∙ cancel_waiting P p o.timer q v o.at h
            ∙ ap some eq,
        subst (Inv P) eq (cancelled-Inv P p o.timer q v o.at h),
      )
  | inr e ↦ (
    cancel_absent P p s q v e ∙ rw e refl,
    rw e (
        if-Inv P q.calling_expired (record q { canceling = insert_pair (p, s) q.canceling }) q
          (with_rest-Inv P q q.calling_expired (insert_pair (p, s) q.canceling) q.created q.armed v)
          v),
  )
]

-- `cancelInLoop` of a queue that keeps the invariant returns, and the invariant is kept; of the
-- active timers exactly the named one goes. One that is not active is noted as cancelled while the
-- expired timers are called.
pub cancel_in_loop-active :
    (P : Pair → Type 0) (p s : ℕ) (q : Queue)
    → Inv P q
    → (r : Queue) × (cancel_in_loop p s q ≡ some r)
      × Inv P r
      × ((a : Pair) → has a r.active ≡ (not (same a (p, s)) && has a q.active))
      × (q.calling_expired ≡ true → has (p, s) q.active ≡ false → has (p, s) r.canceling ≡ true)
cancel_in_loop-active P p s q v =
    let (runs, w) = cancel_in_loop-Kept P p s q v in
    (after_cancel p s q, runs, w, active_after, noted)
  where
    active_if :
        (b : Bool) (a : Pair) (c : List Pair)
        → has a (if b then record q { canceling = c } else q).active ≡ has a q.active
    active_if true a c = refl
    active_if false a c = refl

    absent :
        (a : Pair)
        → has (p, s) q.active ≡ false
        → has a q.active ≡ (not (same a (p, s)) && has a q.active)
    absent a e = elim (Bool-cases (same a (p, s))) [
      | inl k ↦ ap (λ x. has x q.active) (same→≡ a (p, s) k) ∙ e ∙ rw k refl
      | inr k ↦ rw k refl
    ]

    active_after :
        (a : Pair) → has a (after_cancel p s q).active ≡ (not (same a (p, s)) && has a q.active)
    active_after a = elim (Bool-cases (has (p, s) q.active)) [
      | inl e ↦ rw e (has-erase_pair (p, s) a q.active v.active_sorted)
      | inr e ↦
          ap
            (λ b.
              has a
                (if b
                  then record q {
                    heap = remove p q.heap;
                    timers = elim (lookup p q.heap) [
                      | none ↦ q.timers
                      | some t ↦ erase_pair (t.expiration, p) q.timers
                    ];
                    active = erase_pair (p, s) q.active;
                  }
                  else (if q.calling_expired
                      then record q { canceling = insert_pair (p, s) q.canceling }
                      else q)).active)
            e
          ∙ active_if q.calling_expired a (insert_pair (p, s) q.canceling)
          ∙ absent a e
    ]

    noted :
        q.calling_expired ≡ true
        → has (p, s) q.active ≡ false
        → has (p, s) (after_cancel p s q).canceling ≡ true
    noted c e = rw (e, c) (has-insert_pair (p, s) (p, s) q.canceling ∙ rw (same_refl (p, s)) refl)
