-- ===== src/TimerQueue/Add.antt =====
-- TimerQueue.cc: a timer that is in neither set goes into both.
use chat.Prelude.{
  ℕ, suc, ◌<◌, ◌≡◌, refl, sym, ap, subst, ◌∙◌, Bool, true, false, ◌||◌, none, some, List, length,
  Bool-cases, Option-cases, inl, inr, arith, ◌==◌, if◌then◌else◌, ==_iff, ◌⊎◌,
}
use chat.Prelude.Assoc.{lookup, put, lookup-put}
use chat.TimerQueue.Sets.{
  Pair, same, has, or_cases, same-differs, insert_pair, same→≡, same_refl, has-insert_pair,
  length-insert_pair, insert_pair-Sorted,
}
use chat.TimerQueue.Invariant.{
  Waits, Active, Idle, Inv, put-Inv, with_heap, with_rest-Inv, absent-Idle, absent_others, Kept,
}
use chat.TimerQueue.{
  Interval, Timer, Queue, uintptr_max, insert, is_earliest, add_timer, add_timer_in_loop,
  make_timer, reset_timerfd, is_free, how_much_time_from_now,
}

abbrev pub inserted : ℕ → Timer → Queue → Queue
inserted p t q = record q {
  timers = insert_pair (t.expiration, p) q.timers;
  active = insert_pair (p, t.sequence) q.active;
}

or_right : (a b : Bool) → b ≡ true → (a || b) ≡ true
or_right true b h = refl
or_right false b h = h

-- What is in a set after an insertion, and what stays in it.
has-insert_cases :
    (x y : Pair) (s : List Pair) → has y (insert_pair x s) ≡ true → (y ≡ x) ⊎ (has y s ≡ true)
has-insert_cases x y s h = elim (or_cases (same y x) (has y s) (sym (has-insert_pair x y s) ∙ h)) [
  | inl e ↦ inl (same→≡ y x e)
  | inr e ↦ inr e
]

has-insert_kept : (x y : Pair) (s : List Pair) → has y s ≡ true → has y (insert_pair x s) ≡ true
has-insert_kept x y s h = has-insert_pair x y s ∙ or_right (same y x) (has y s) h

has-insert_new : (x : Pair) (s : List Pair) → has x (insert_pair x s) ≡ true
has-insert_new x s = has-insert_pair x x s ∙ rw (same_refl x) refl

module _ (P : Pair → Type 0) (p : ℕ) (t : Timer) (q : Queue) (v : Inv P q)
    (at : lookup p q.heap ≡ some t) (idle : Idle p q) where
  not_waiting : has (t.expiration, p) q.timers ≡ false
  not_waiting = elim (Bool-cases (has (t.expiration, p) q.timers)) [
    | inl e ↦
        let w = v.waiting (t.expiration, p) e in
        absurd (ground (arith, idle w.timer.sequence, w.is_active))
    | inr e ↦ e
  ]

  inserted_sizes : length (inserted p t q).timers ≡ length (inserted p t q).active
  inserted_sizes =
      length-insert_pair (t.expiration, p) q.timers not_waiting
      ∙ ap suc v.sizes
      ∙ sym (length-insert_pair (p, t.sequence) q.active (idle t.sequence))

  pub insert_lem : insert p q ≡ some (is_earliest t.expiration q.timers, inserted p t q)
  unfolding insert
  insert_lem =
      let before : (length q.timers == length q.active) ≡ true = (==_iff _ _).1 v.sizes in
      let after : (length (inserted p t q).timers == length (inserted p t q).active) ≡ true =
        (==_iff _ _).1 inserted_sizes in
      rw (before, at, not_waiting, idle t.sequence, after) refl

  module _ (others : (e : Pair) → P e → (p == e.1) ≡ false) where
    pub inserted-Inv : Inv P (inserted p t q)
    inserted-Inv = record {
      timers_sorted = insert_pair-Sorted (t.expiration, p) q.timers v.timers_sorted;
      active_sorted = insert_pair-Sorted (p, t.sequence) q.active v.active_sorted;
      sizes = inserted_sizes;
      waiting = λ e h. elim (has-insert_cases (t.expiration, p) e q.timers h) [
        | inl same_entry ↦
            subst (λ x. Waits x (inserted p t q)) (sym same_entry)
              (record {
                timer = t;
                at = at;
                expires = refl;
                is_active = has-insert_new (p, t.sequence) q.active;
              })
        | inr w ↦
            let o = v.waiting e w in
            record {
              timer = o.timer;
              at = o.at;
              expires = o.expires;
              is_active =
                  has-insert_kept (p, t.sequence) (e.1, o.timer.sequence) q.active o.is_active;
            }
      ];
      listed = λ a h. elim (has-insert_cases (p, t.sequence) a q.active h) [
        | inl same_entry ↦
            subst (λ x. Active x (inserted p t q)) (sym same_entry)
              (record {
                timer = t;
                at = at;
                numbered = refl;
                waits = has-insert_new (t.expiration, p) q.timers;
              })
        | inr w ↦
            let o = v.listed a w in
            record {
              timer = o.timer;
              at = o.at;
              numbered = o.numbered;
              waits = has-insert_kept (t.expiration, p) (o.timer.expiration, a.0) q.timers o.waits;
            }
      ];
      expired = λ e h.
          let o = v.expired e h in
          record {
            timer = o.timer;
            at = o.at;
            expires = o.expires;
            idle = λ s. still_idle e.1 s (others e h) (o.idle s);
          };
      fits = v.fits;
    }
      where
        still_idle :
            (j s : ℕ)
            → (p == j) ≡ false
            → has (j, s) q.active ≡ false
            → has (j, s) (insert_pair (p, t.sequence) q.active) ≡ false
        still_idle j s e f =
            has-insert_pair (p, t.sequence) (j, s) q.active
            ∙ rw (same-differs p t.sequence j s e, f) refl

-- `addTimer` from the loop thread: the queue with the new timer, and the clock that it may set.
pub record Added (p when : ℕ) (interval : Interval) (now : ℕ) (q r : Queue) : Type 0 where
  pub at : lookup p r.heap ≡ some (make_timer when interval (suc q.created))
  pub timers : r.timers ≡ insert_pair (when, p) q.timers
  pub active : r.active ≡ insert_pair (p, suc q.created) q.active
  pub armed :
      r.armed
      ≡ (if is_earliest when q.timers then some (how_much_time_from_now when now) else q.armed)

armed_if :
    (b : Bool) (when now : ℕ) (q : Queue)
    → (if b then reset_timerfd when now q else q)
      ≡ record q { armed = if b then some (how_much_time_from_now when now) else q.armed }
unfolding reset_timerfd
armed_if true when now q = refl
armed_if false when now q = refl

is_free-absent :
    (p : ℕ) (q : Queue) → is_free p q ≡ true → (p < uintptr_max) × (lookup p q.heap ≡ none)
unfolding is_free
is_free-absent p q h = elim (Option-cases (lookup p q.heap)) [
  | inl e ↦ (ground arith, e)
  | inr (t, e) ↦ absurd (ground (arith, e))
]

module _ (P : Pair → Type 0) (p when : ℕ) (interval : Interval) (now : ℕ) (q : Queue)
    (v : Inv P q) where
  abbrev timer : Timer
  timer = make_timer when interval (suc q.created)

  abbrev prepared : Queue
  prepared = record q { heap = put p timer q.heap; created = suc q.created }

  module _ (small : p < uintptr_max) (absent : lookup p q.heap ≡ none) where
    prepared-Inv : Inv P prepared
    prepared-Inv =
        with_rest-Inv P (with_heap (put p timer q.heap) q) q.calling_expired q.canceling
          (suc q.created) q.armed
          (put-Inv P p q v (absent-Idle P p q v absent) (absent_others P p q v absent) timer small)

    prepared_at : lookup p prepared.heap ≡ some timer
    prepared_at = lookup-put p p timer q.heap ∙ ground arith

    add_in_loop :
        (r : Queue) × (add_timer_in_loop p now prepared ≡ some r)
        × Inv P r
        × Added p when interval now q r
    unfolding add_timer_in_loop make_timer
    add_in_loop =
        let idle : Idle p prepared = absent-Idle P p q v absent in
        let earliest = is_earliest when q.timers in
        let armed = if earliest then some (how_much_time_from_now when now) else q.armed in
        (
          record (inserted p timer prepared) { armed = armed },
          rw (insert_lem P p timer prepared prepared-Inv prepared_at idle, prepared_at)
              (ap some (armed_if earliest when now (inserted p timer prepared))),
          with_rest-Inv P (inserted p timer prepared) q.calling_expired q.canceling (suc q.created)
              armed
              (inserted-Inv P p timer prepared prepared-Inv prepared_at idle
                (absent_others P p q v absent)),
          record { at = prepared_at; timers = refl; active = refl; armed = refl },
        )

  -- `addTimer` at a free address of a queue that keeps the invariant returns, and the invariant is
  -- kept: the new timer is in the heap with the next sequence number and in both sets at its place,
  -- and the clock is set to it exactly if it is before every other.
  pub add_timer-free :
      is_free p q ≡ true
      → (r : Queue) × (add_timer p when interval now q ≡ some r)
        × Inv P r
        × Added p when interval now q r
  unfolding add_timer
  add_timer-free free =
      let (small, absent) = is_free-absent p q free in rw free (add_in_loop small absent)

  pub add_timer-Kept : Kept P (add_timer p when interval now q)
  unfolding add_timer
  add_timer-Kept = elim (Bool-cases (is_free p q)) [
    | inl e ↦ let a = add_timer-free e in (a.0, a.1, a.2)
    | inr e ↦ (q, not_free e, v)
  ]
    where
      not_free : is_free p q ≡ false → add_timer p when interval now q ≡ some q
      not_free e = rw e refl
