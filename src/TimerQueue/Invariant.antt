-- ===== src/TimerQueue/Invariant.antt =====
-- TimerQueue.cc: the two sets hold the same timers, all of them alive, and the expired ones are out of
-- both.
use chat.Prelude.{
  ℕ, ◌<◌, ◌≡◌, refl, sym, subst, ◌∙◌, Bool, true, false, Option, none, some, List, length,
  Bool-cases, inl, inr, arith, ◌==◌, ==_iff,
}
use chat.Prelude.Assoc.{lookup, put, remove, lookup-put, lookup-remove}
use chat.TimerQueue.Sets.{Pair, has, Sorted}
use chat.TimerQueue.{Timer, TimeSpec, Queue, uintptr_max}

-- The timer of an entry of `timers_`, and of one of `activeTimers_`.
pub record Waits (e : Pair) (q : Queue) : Type 0 where
  pub timer : Timer
  pub at : lookup e.1 q.heap ≡ some timer
  pub expires : timer.expiration ≡ e.0
  pub is_active : has (e.1, timer.sequence) q.active ≡ true

pub record Active (a : Pair) (q : Queue) : Type 0 where
  pub timer : Timer
  pub at : lookup a.0 q.heap ≡ some timer
  pub numbered : timer.sequence ≡ a.1
  pub waits : has (timer.expiration, a.0) q.timers ≡ true

abbrev pub Idle : ℕ → Queue → Type 0
Idle p q = (s : ℕ) → has (p, s) q.active ≡ false

-- An expired timer whose callback is about to run, or has run and is not yet renewed.
pub record Expired (e : Pair) (q : Queue) : Type 0 where
  pub timer : Timer
  pub at : lookup e.1 q.heap ≡ some timer
  pub expires : timer.expiration ≡ e.0
  pub idle : Idle e.1 q

pub record Inv (P : Pair → Type 0) (q : Queue) : Type 0 where
  pub timers_sorted : Sorted q.timers
  pub active_sorted : Sorted q.active
  pub sizes : length q.timers ≡ length q.active
  pub waiting : (e : Pair) → has e q.timers ≡ true → Waits e q
  pub listed : (a : Pair) → has a q.active ≡ true → Active a q
  pub expired : (e : Pair) → P e → Expired e q
  pub fits : (p : ℕ) (t : Timer) → lookup p q.heap ≡ some t → p < uintptr_max

pub Inv-weaken :
    {P Q : Pair → Type 0} (q : Queue) → Inv P q → ((e : Pair) → Q e → Expired e q) → Inv Q q
Inv-weaken q v f = record {
  timers_sorted = v.timers_sorted;
  active_sorted = v.active_sorted;
  sizes = v.sizes;
  waiting = v.waiting;
  listed = v.listed;
  expired = f;
  fits = v.fits;
}

same_timer : {a b : Timer} → some a ≡ some b → a ≡ b
same_timer e = cc

-- One address has one timer.
pub one_timer :
    (p : ℕ) (q : Queue) (a b : Timer) → lookup p q.heap ≡ some a → lookup p q.heap ≡ some b → a ≡ b
one_timer p q a b h k = same_timer (sym h ∙ k)

active_differs :
    (p : ℕ) (q : Queue) (a : Pair) → Idle p q → has a q.active ≡ true → (p == a.0) ≡ false
active_differs p q a idle h = elim (Bool-cases (p == a.0)) [
  | inl e ↦ absurd (
      ground
        (arith, idle a.1, subst (λ x. has (x, a.1) q.active ≡ true) (sym ((==_iff p a.0).0 e)) h))
  | inr e ↦ e
]

-- The heap of a queue changes at an address that no entry has.
abbrev pub with_heap : List (ℕ × Timer) → Queue → Queue
with_heap h q = record q { heap = h }

module _ (P : Pair → Type 0) (p : ℕ) (h : List (ℕ × Timer)) (q : Queue) (v : Inv P q)
    (idle : Idle p q) (others : (e : Pair) → P e → (p == e.1) ≡ false)
    (kept : (j : ℕ) → (p == j) ≡ false → lookup j h ≡ lookup j q.heap)
    (fits : (j : ℕ) (t : Timer) → lookup j h ≡ some t → j < uintptr_max) where
  pub with_heap-Inv : Inv P (with_heap h q)
  with_heap-Inv = record {
    timers_sorted = v.timers_sorted;
    active_sorted = v.active_sorted;
    sizes = v.sizes;
    waiting = λ e w.
        let o = v.waiting e w in
        record {
          timer = o.timer;
          at = kept e.1 (active_differs p q (e.1, o.timer.sequence) idle o.is_active) ∙ o.at;
          expires = o.expires;
          is_active = o.is_active;
        };
    listed = λ a w.
        let o = v.listed a w in
        record {
          timer = o.timer;
          at = kept a.0 (active_differs p q a idle w) ∙ o.at;
          numbered = o.numbered;
          waits = o.waits;
        };
    expired = λ e w.
        let o = v.expired e w in
        record {
          timer = o.timer;
          at = kept e.1 (others e w) ∙ o.at;
          expires = o.expires;
          idle = o.idle;
        };
    fits = fits;
  }

module _ (P : Pair → Type 0) (p : ℕ) (q : Queue) (v : Inv P q) (idle : Idle p q)
    (others : (e : Pair) → P e → (p == e.1) ≡ false) where
  pub put-Inv : (t : Timer) → p < uintptr_max → Inv P (with_heap (put p t q.heap) q)
  put-Inv t small =
      with_heap-Inv P p (put p t q.heap) q v idle others
        (λ j e. rw (lookup-put p j t q.heap, e) refl)
        (λ j u h. elim (Bool-cases (p == j)) [
          | inl e ↦ subst (λ x. x < uintptr_max) ((==_iff p j).0 e) small
          | inr e ↦ v.fits j u (sym (rw (lookup-put p j t q.heap, e) refl) ∙ h)
        ])

  pub remove-Inv : Inv P (with_heap (remove p q.heap) q)
  remove-Inv =
      with_heap-Inv P p (remove p q.heap) q v idle others
        (λ j e. rw (lookup-remove p j q.heap, e) refl)
        (λ j u h. elim (Bool-cases (p == j)) [
          | inl e ↦
              let gone : lookup j (remove p q.heap) ≡ none =
                rw (lookup-remove p j q.heap, e) refl in
              absurd (ground (arith, gone, h))
          | inr e ↦ v.fits j u (sym (rw (lookup-remove p j q.heap, e) refl) ∙ h)
        ])

-- The other fields are free.
pub with_rest-Inv :
    (P : Pair → Type 0) (q : Queue) (calling : Bool) (canceling : List Pair) (created : ℕ)
    (armed : Option TimeSpec)
    → Inv P q
    → Inv P (record q {
      calling_expired = calling;
      canceling = canceling;
      created = created;
      armed = armed;
    })
with_rest-Inv P q calling canceling created armed v = record {
  timers_sorted = v.timers_sorted;
  active_sorted = v.active_sorted;
  sizes = v.sizes;
  waiting = λ e h.
      let o = v.waiting e h in
      record { timer = o.timer; at = o.at; expires = o.expires; is_active = o.is_active };
  listed = λ a h.
      let o = v.listed a h in
      record { timer = o.timer; at = o.at; numbered = o.numbered; waits = o.waits };
  expired = λ e h.
      let o = v.expired e h in
      record { timer = o.timer; at = o.at; expires = o.expires; idle = o.idle };
  fits = v.fits;
}

-- An address that has no timer is in no set.
module _ (P : Pair → Type 0) (p : ℕ) (q : Queue) (v : Inv P q)
    (absent : lookup p q.heap ≡ none) where
  absent_differs : (j : ℕ) (t : Timer) → lookup j q.heap ≡ some t → (p == j) ≡ false
  absent_differs j t at = elim (Bool-cases (p == j)) [
    | inl e ↦
        absurd (ground (arith, subst (λ x. lookup x q.heap ≡ none) ((==_iff p j).0 e) absent, at))
    | inr e ↦ e
  ]

  pub absent-Idle : Idle p q
  absent-Idle s = elim (Bool-cases (has (p, s) q.active)) [
    | inl e ↦ let o = v.listed (p, s) e in absurd (ground (arith, absent, o.at))
    | inr e ↦ e
  ]

  pub absent_others : (e : Pair) → P e → (p == e.1) ≡ false
  absent_others e h = let o = v.expired e h in absent_differs e.1 o.timer o.at

-- What a step that keeps the invariant gives.
abbrev pub Kept : (Pair → Type 0) → Option Queue → Type 0
Kept P o = (r : Queue) × (o ≡ some r) × Inv P r
