-- ===== src/TimerQueue/Erase.antt =====
-- TimerQueue.cc: a timer leaves both sets, by `cancelInLoop` or because it has expired.
use chat.Prelude.{
  ℕ, ◌≡◌, refl, sym, ap, subst, ◌∙◌, Bool, true, false, not, ◌&&◌, some, List, length, Bool-cases,
  inl, inr, arith, ◌==◌, ==_iff,
}
use chat.Prelude.Assoc.{lookup}
use chat.TimerQueue.Sets.{
  Pair, same, has, erase_pair, Sorted, same-differs, has-erase_pair, length-erase_pair,
  erase_pair-Sorted,
}
use chat.TimerQueue.Invariant.{Idle, Inv, one_timer}
use chat.TimerQueue.{Timer, Queue}

abbrev pub erased : ℕ → Timer → Queue → Queue
erased p t q = record q {
  timers = erase_pair (t.expiration, p) q.timers;
  active = erase_pair (p, t.sequence) q.active;
}

and_both : (a b : Bool) → (a && b) ≡ true → (a ≡ true) × (b ≡ true)
and_both true b h = (refl, h)
and_both false b h = absurd (ground arith)

-- What is left in a set, and what stays.
has-erased :
    (x y : Pair) (s : List Pair)
    → Sorted s
    → has y (erase_pair x s) ≡ true
    → (same y x ≡ false) × (has y s ≡ true)
has-erased x y s v h =
    let (n, k) = and_both (not (same y x)) (has y s) (sym (has-erase_pair x y s v) ∙ h) in
    (ground arith, k)

has-erased_kept :
    (x y : Pair) (s : List Pair)
    → Sorted s
    → same y x ≡ false
    → has y s ≡ true
    → has y (erase_pair x s) ≡ true
has-erased_kept x y s v n h = has-erase_pair x y s v ∙ rw (n, h) refl

same_parts : (a b : Pair) → same a b ≡ false → a.0 ≡ b.0 → (a.1 == b.1) ≡ false
unfolding same
same_parts a b h k = ground arith

same_second : (t p u j : ℕ) → (p == j) ≡ false → same (u, j) (t, p) ≡ false
unfolding same
same_second t p u j e = ground arith

module _ (P : Pair → Type 0) (p : ℕ) (t : Timer) (q : Queue) (v : Inv P q)
    (at : lookup p q.heap ≡ some t) (is_active : has (p, t.sequence) q.active ≡ true) where
  pub erased_waits : has (t.expiration, p) q.timers ≡ true
  erased_waits =
      let o = v.listed (p, t.sequence) is_active in
      subst (λ x. has (x.expiration, p) q.timers ≡ true) (one_timer p q o.timer t o.at at) o.waits

  pub erased_sizes : length (erased p t q).timers ≡ length (erased p t q).active
  erased_sizes = ground (
    arith,
    length-erase_pair (t.expiration, p) q.timers erased_waits,
    length-erase_pair (p, t.sequence) q.active is_active,
    v.sizes,
  )

  pub erased-Idle : Idle p (erased p t q)
  erased-Idle s = elim (Bool-cases (has (p, s) (erase_pair (p, t.sequence) q.active))) [
    | inl e ↦
        let (n, h) = has-erased (p, t.sequence) (p, s) q.active v.active_sorted e in
        let o = v.listed (p, s) h in
        let same_number : t.sequence ≡ s =
          ap (λ x. x.sequence) (one_timer p q t o.timer at o.at) ∙ o.numbered in
        absurd (ground (arith, same_parts (p, s) (p, t.sequence) n refl, same_number))
    | inr e ↦ e
  ]

  -- An entry that is left has another address.
  differs_waiting : (e : Pair) → has e (erased p t q).timers ≡ true → (p == e.1) ≡ false
  differs_waiting e h = elim (Bool-cases (p == e.1)) [
    | inl k ↦
        let (n, w) = has-erased (t.expiration, p) e q.timers v.timers_sorted h in
        let o = v.waiting e w in
        let same_place : p ≡ e.1 = (==_iff p e.1).0 k in
        let time : t.expiration ≡ e.0 =
          ap (λ x. x.expiration)
            (one_timer e.1 q t o.timer (subst (λ x. lookup x q.heap ≡ some t) same_place at) o.at)
          ∙ o.expires in
        absurd (ground (arith, same_parts e (t.expiration, p) n (sym time), same_place))
    | inr k ↦ k
  ]

  differs_listed : (a : Pair) → has a (erased p t q).active ≡ true → (p == a.0) ≡ false
  differs_listed a h = elim (Bool-cases (p == a.0)) [
    | inl k ↦
        let same_place : p ≡ a.0 = (==_iff p a.0).0 k in
        absurd (
          ground (
            arith,
            erased-Idle a.1,
            subst (λ x. has (x, a.1) (erase_pair (p, t.sequence) q.active) ≡ true) (sym same_place)
                h,
          ))
    | inr k ↦ k
  ]

  pub erased-Inv : Inv P (erased p t q)
  erased-Inv = record {
    timers_sorted = erase_pair-Sorted (t.expiration, p) q.timers v.timers_sorted;
    active_sorted = erase_pair-Sorted (p, t.sequence) q.active v.active_sorted;
    sizes = erased_sizes;
    waiting = λ e h.
        let o = v.waiting e (has-erased (t.expiration, p) e q.timers v.timers_sorted h).1 in
        record {
          timer = o.timer;
          at = o.at;
          expires = o.expires;
          is_active =
              has-erased_kept (p, t.sequence) (e.1, o.timer.sequence) q.active v.active_sorted
                (same-differs p t.sequence e.1 o.timer.sequence (differs_waiting e h)) o.is_active;
        };
    listed = λ a h.
        let o = v.listed a (has-erased (p, t.sequence) a q.active v.active_sorted h).1 in
        record {
          timer = o.timer;
          at = o.at;
          numbered = o.numbered;
          waits =
              has-erased_kept (t.expiration, p) (o.timer.expiration, a.0) q.timers v.timers_sorted
                (same_second t.expiration p o.timer.expiration a.0 (differs_listed a h)) o.waits;
        };
    expired = λ e h.
        let o = v.expired e h in
        record {
          timer = o.timer;
          at = o.at;
          expires = o.expires;
          idle = λ s.
              has-erase_pair (p, t.sequence) (e.1, s) q.active v.active_sorted
              ∙ rw (o.idle s) (and_false _);
        };
    fits = v.fits;
  }
    where
      and_false : (a : Bool) → (a && false) ≡ false
      and_false true = refl
      and_false false = refl

  -- An active timer is not among the expired ones.
  pub active_others : (e : Pair) → P e → (p == e.1) ≡ false
  active_others e h = elim (Bool-cases (p == e.1)) [
    | inl k ↦
        let o = v.expired e h in
        absurd (
          ground (
            arith,
            o.idle t.sequence,
            subst (λ x. has (x, t.sequence) q.active ≡ true) ((==_iff p e.1).0 k) is_active,
          ))
    | inr k ↦ k
  ]
