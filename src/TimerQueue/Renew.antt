-- ===== src/TimerQueue/Renew.antt =====
-- TimerQueue.cc: `reset` restarts the expired timers that repeat, less the cancelled ones, and deletes
-- the others.
use chat.Prelude.{
  ℕ, ◌≡◌, refl, sym, ap, subst, ◌∙◌, Bool, true, false, not, ◌||◌, ◌&&◌, Option, none, some, List,
  [], ◌∷◌, Bool-cases, inl, inr, arith, ◌==◌, if◌then◌else◌, ==_iff,
}
use chat.Prelude.Assoc.{lookup, put, remove, lookup-put, lookup-remove}
use chat.TimerQueue.Sets.{Pair, same, has, Sorted, Above-fresh, same→≡, same_refl, has-insert_pair}
use chat.TimerQueue.Invariant.{Idle, Inv, Inv-weaken, one_timer, put-Inv, remove-Inv, with_heap}
use chat.TimerQueue.Add.{inserted, insert_lem, inserted-Inv}
use chat.TimerQueue.Expire.{In, first_in, later_in}
use chat.TimerQueue.{Timer, Queue, renew, restart}

-- Whether an expired timer goes on.
abbrev pub goes_on : ℕ → Timer → Queue → Bool
goes_on p t q = t.repeat && not (has (p, t.sequence) q.canceling)

abbrev pub fate : ℕ → ℕ → Timer → Queue → Option Timer
fate now p t q = if goes_on p t q then some (restart now t) else none

other_address :
    (e x : Pair) (es : List Pair) (q : Queue)
    → Inv (In (e ∷ es)) q
    → Sorted (e ∷ es)
    → has x es ≡ true
    → (e.1 == x.1) ≡ false
other_address e x es q v ord h = elim (Bool-cases (e.1 == x.1)) [
  | inl k ↦
      let o = v.expired e (first_in e es) in
      let w = v.expired x (later_in x e es h) in
      let place : e.1 ≡ x.1 = (==_iff e.1 x.1).0 k in
      let time : e.0 ≡ x.0 =
        sym o.expires
        ∙ ap (λ t. t.expiration)
            (one_timer x.1 q o.timer w.timer
              (subst (λ p. lookup p q.heap ≡ some o.timer) place o.at) w.at)
        ∙ w.expires in
      let entry : x ≡ e = cc in
      absurd (ground (arith, Above-fresh e es ord.0, subst (λ y. has y es ≡ true) entry h))
  | inr k ↦ k
]

-- One turn of the loop.
record Turned (now : ℕ) (e : Pair) (es : List Pair) (t : Timer) (q r : Queue) : Type 0 where
  inv : Inv (In es) r
  runs : renew now (e ∷ es) q ≡ renew now es r
  heap : (j : ℕ) → lookup j r.heap ≡ (if e.1 == j then fate now e.1 t q else lookup j q.heap)
  kept : (a : Pair) → has a q.active ≡ true → has a r.active ≡ true
  listed : goes_on e.1 t q ≡ true → has (e.1, t.sequence) r.active ≡ true
  canceling : r.canceling ≡ q.canceling

restart-sequence : (now : ℕ) (t : Timer) → (restart now t).sequence ≡ t.sequence
unfolding restart
restart-sequence now t = refl

or_right : (a b : Bool) → b ≡ true → (a || b) ≡ true
or_right true b h = refl
or_right false b h = h

module _ (now : ℕ) (e : Pair) (es : List Pair) (t : Timer) (q : Queue) (v : Inv (In (e ∷ es)) q)
    (ord : Sorted (e ∷ es)) (at : lookup e.1 q.heap ≡ some t) where
  weaker : Inv (In es) q
  weaker = Inv-weaken q v (λ x h. v.expired x (later_in x e es h))

  idle : Idle e.1 q
  idle = (v.expired e (first_in e es)).idle

  others : (x : Pair) → In es x → (e.1 == x.1) ≡ false
  others x h = other_address e x es q v ord h

  abbrev restarted : Queue
  restarted = with_heap (put e.1 (restart now t) q.heap) q

  restarted-Inv : Inv (In es) restarted
  restarted-Inv = put-Inv (In es) e.1 q weaker idle others (restart now t) (v.fits e.1 t at)

  restarted_at : lookup e.1 restarted.heap ≡ some (restart now t)
  restarted_at = lookup-put e.1 e.1 (restart now t) q.heap ∙ ground arith

  abbrev back : Queue
  back = inserted e.1 (restart now t) restarted

  back-Turned : goes_on e.1 t q ≡ true → Turned now e es t q back
  unfolding renew
  back-Turned c = record {
    inv = inserted-Inv (In es) e.1 (restart now t) restarted restarted-Inv restarted_at idle others;
    runs =
        rw (at, c, insert_lem (In es) e.1 (restart now t) restarted restarted-Inv restarted_at idle)
          refl;
    heap = λ j. lookup-put e.1 j (restart now t) q.heap ∙ rw c refl;
    kept = λ a h.
        has-insert_pair (e.1, (restart now t).sequence) a q.active ∙ or_right _ (has a q.active) h;
    listed = λ k.
        has-insert_pair (e.1, (restart now t).sequence) (e.1, t.sequence) q.active
        ∙ rw (restart-sequence now t, same_refl (e.1, t.sequence)) refl;
    canceling = refl;
  }

  gone-Turned : goes_on e.1 t q ≡ false → Turned now e es t q (with_heap (remove e.1 q.heap) q)
  unfolding renew
  gone-Turned c = record {
    inv = remove-Inv (In es) e.1 q weaker idle others;
    runs = rw (at, c) refl;
    heap = λ j. lookup-remove e.1 j q.heap ∙ rw c refl;
    kept = λ a h. h;
    listed = λ k. absurd (ground arith);
    canceling = refl;
  }

  turned : (r : Queue) × Turned now e es t q r
  turned = elim (Bool-cases (goes_on e.1 t q)) [
    | inl c ↦ (back, back-Turned c)
    | inr c ↦ (with_heap (remove e.1 q.heap) q, gone-Turned c)
  ]

-- What becomes of the expired timers, and that the others are as they were.
pub record Renewed (now : ℕ) (es : List Pair) (q r : Queue) : Type 0 where
  pub inv : Inv (In []) r
  pub inside :
      (e : Pair) (t : Timer)
      → has e es ≡ true
      → lookup e.1 q.heap ≡ some t
      → (lookup e.1 r.heap ≡ fate now e.1 t q)
        × (goes_on e.1 t q ≡ true → has (e.1, t.sequence) r.active ≡ true)
  pub outside :
      (p : ℕ)
      → ((e : Pair) → has e es ≡ true → (e.1 == p) ≡ false)
      → lookup p r.heap ≡ lookup p q.heap
  pub kept : (a : Pair) → has a q.active ≡ true → has a r.active ≡ true

module _ (now : ℕ) (e : Pair) (es : List Pair) (t : Timer) (q q1 r : Queue)
    (v : Inv (In (e ∷ es)) q) (ord : Sorted (e ∷ es)) (at : lookup e.1 q.heap ≡ some t)
    (o : Turned now e es t q q1) (next : Renewed now es q1 r) where
  first_fate :
      (lookup e.1 r.heap ≡ fate now e.1 t q)
      × (goes_on e.1 t q ≡ true → has (e.1, t.sequence) r.active ≡ true)
  first_fate = (
    next.outside e.1 (λ x h. same_number_sym e.1 x.1 (other_address e x es q v ord h))
        ∙ o.heap e.1
        ∙ rw (same_number e.1) refl,
    λ c. next.kept (e.1, t.sequence) (o.listed c),
  )
    where
      same_number : (p : ℕ) → (p == p) ≡ true
      same_number p = ground arith

      same_number_sym : (p j : ℕ) → (p == j) ≡ false → (j == p) ≡ false
      same_number_sym p j h = ground arith

  later_fate :
      (x : Pair) (u : Timer)
      → has x es ≡ true
      → lookup x.1 q.heap ≡ some u
      → (lookup x.1 r.heap ≡ fate now x.1 u q)
        × (goes_on x.1 u q ≡ true → has (x.1, u.sequence) r.active ≡ true)
  later_fate x u h w =
      let there : lookup x.1 q1.heap ≡ some u =
        o.heap x.1 ∙ rw (other_address e x es q v ord h) w in
      let (heap, listed) = next.inside x u h there in
      (
        subst
            (λ c.
              lookup x.1 r.heap
              ≡ (if u.repeat && not (has (x.1, u.sequence) c) then some (restart now u) else none))
            o.canceling heap,
        λ g.
            listed
              (subst (λ c. (u.repeat && not (has (x.1, u.sequence) c)) ≡ true) (sym o.canceling) g),
      )

  whole_Renewed : Renewed now (e ∷ es) q r
  unfolding has
  whole_Renewed = record {
    inv = next.inv;
    inside = λ x u h w. elim (Bool-cases (same x e)) [
      | inl k ↦
          let entry : x ≡ e = same→≡ x e k in
          let timer : t ≡ u =
            one_timer e.1 q t u at (subst (λ y. lookup y.1 q.heap ≡ some u) entry w) in
          subst
            (λ y.
              (lookup y.1 r.heap ≡ fate now y.1 u q)
              × (goes_on y.1 u q ≡ true → has (y.1, u.sequence) r.active ≡ true))
            (sym entry)
            (subst
              (λ z.
                (lookup e.1 r.heap ≡ fate now e.1 z q)
                × (goes_on e.1 z q ≡ true → has (e.1, z.sequence) r.active ≡ true))
              timer first_fate)
      | inr k ↦ later_fate x u (sym (rw k refl) ∙ h) w
    ];
    outside = λ p f.
        next.outside p (λ x h. f x (later_in x e es h)) ∙ o.heap p ∙ rw (f e (first_in e es)) refl;
    kept = λ a h. next.kept a (o.kept a h);
  }

pub renew-Renewed :
    (now : ℕ) (es : List Pair) (q : Queue)
    → Inv (In es) q
    → Sorted es
    → (r : Queue) × (renew now es q ≡ some r) × Renewed now es q r
unfolding renew has
renew-Renewed now [] q v ord = (
  q,
  refl,
  record {
    inv = v;
    inside = λ e t h w. absurd (ground arith);
    outside = λ p f. refl;
    kept = λ a h. h;
  },
)
renew-Renewed now (e ∷ es) q v ord =
    let x = v.expired e (first_in e es) in
    let (q1, o) = turned now e es x.timer q v ord x.at in
    let (r, runs, next) = renew-Renewed now es q1 o.inv ord.1 in
    (r, o.runs ∙ runs, whole_Renewed now e es x.timer q q1 r v ord x.at o next)
