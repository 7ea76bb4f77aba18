-- ===== src/TimerQueue/Expire.antt =====
-- TimerQueue.cc: `getExpired` takes out the timers whose time has come.
use chat.Prelude.{
  ℕ, ◌<◌, ◌≡◌, refl, sym, ap, subst, ◌∙◌, Bool, true, false, ◌||◌, ◌&&◌, some, List, [], ◌∷◌, ◌++◌,
  length, Bool-cases, inl, inr, arith, ◌==◌, ==_iff, ◌⊎◌, leb, ltb,
}
use chat.Prelude.Assoc.{lookup}
use chat.TimerQueue.Sets.{
  Pair, same, has, before, below, from, or_cases, erase_pair, Sorted, same→≡, same_refl, has-append,
  below-from, has-below, has-from, below-Sorted,
}
use chat.TimerQueue.Invariant.{Expired, Inv, Inv-weaken}
use chat.TimerQueue.Erase.{erased, erased-Inv, erased-Idle}
use chat.TimerQueue.{Timer, Queue, erase_active, get_expired, is_earliest, uintptr_max}

abbrev with_timers : List Pair → Queue → Queue
with_timers l q = record q { timers = l }

-- Both kinds of expired entries.
abbrev Or : (Pair → Type 0) → List Pair → Pair → Type 0
Or P es e = P e ⊎ (has e es ≡ true)

erased_first : (e : Pair) (es : List Pair) → erase_pair e (e ∷ es) ≡ es
unfolding erase_pair
erased_first e es = rw (same_refl e) refl

pub first_in : (e : Pair) (es : List Pair) → has e (e ∷ es) ≡ true
unfolding has
first_in e es = rw (same_refl e) refl

pub later_in : (x e : Pair) (es : List Pair) → has x es ≡ true → has x (e ∷ es) ≡ true
unfolding has
later_in x e es h = rw h (or_true (same x e))
  where
    or_true : (b : Bool) → (b || true) ≡ true
    or_true true = refl
    or_true false = refl

-- The first entry of `timers_` and its active timer go out together.
record Popped (P : Pair → Type 0) (e : Pair) (es : List Pair) (q : Queue) : Type 0 where
  timer : Timer
  at : lookup e.1 q.heap ≡ some timer
  is_active : has (e.1, timer.sequence) q.active ≡ true
  inv :
      Inv
        (λ x. P x ⊎ (x ≡ e))
        (record q { timers = es; active = erase_pair (e.1, timer.sequence) q.active })

pop :
    (P : Pair → Type 0) (e : Pair) (es : List Pair) (q : Queue)
    → Inv P (with_timers (e ∷ es) q)
    → Popped P e es q
pop P e es q v =
    let w = v.waiting e (first_in e es) in
    let at_time : (w.timer.expiration, e.1) ≡ e = ap (λ t. (t, e.1)) w.expires in
    let r : Queue = record q {
      timers = es;
      active = erase_pair (e.1, w.timer.sequence) q.active;
    } in
    let eq : erased e.1 w.timer (with_timers (e ∷ es) q) ≡ r =
      ap (λ l. record r { timers = l })
        (ap (λ x. erase_pair x (e ∷ es)) at_time ∙ erased_first e es) in
    let full = with_timers (e ∷ es) q in
    let u = subst (Inv P) eq (erased-Inv P e.1 w.timer full v w.at w.is_active) in
    record {
      timer = w.timer;
      at = w.at;
      is_active = w.is_active;
      inv = Inv-weaken r u (λ x h. elim h [
        | inl k ↦ u.expired x k
        | inr k ↦
            subst (λ y. Expired y r) (sym k)
              (record {
                timer = w.timer;
                at = w.at;
                expires = w.expires;
                idle = erased-Idle P e.1 w.timer full v w.at w.is_active;
              })
      ]);
    }

erase_active-Inv :
    (P : Pair → Type 0) (es rest : List Pair) (q : Queue)
    → Inv P (with_timers (es ++ rest) q)
    → (r : Queue) × (erase_active es (with_timers rest q) ≡ some r)
      × Inv (Or P es) r
      × (r.timers ≡ rest)
unfolding erase_active has
erase_active-Inv P [] rest q v = (
  with_timers rest q,
  refl,
  Inv-weaken (with_timers rest q) v
      (λ x h. elim h [ inl k ↦ v.expired x k | inr k ↦ absurd (ground arith) ]),
  refl,
)
erase_active-Inv P (e ∷ es) rest q v =
    let o = pop P e (es ++ rest) q v in
    let q1 : Queue = record q { active = erase_pair (e.1, o.timer.sequence) q.active } in
    let (r, runs, inv, timers) = erase_active-Inv (λ x. P x ⊎ (x ≡ e)) es rest q1 o.inv in
    (
      r,
      rw (o.at, o.is_active) runs,
      Inv-weaken r inv (λ x h. elim h [
        | inl k ↦ inv.expired x (inl (inl k))
        | inr k ↦ elim (or_cases (same x e) (has x es) k) [
          | inl same_entry ↦ inv.expired x (inl (inr (same→≡ x e same_entry)))
          | inr later ↦ inv.expired x (inr later)
        ]
      ]),
      timers,
    )

-- The entries of a list that are expired.
abbrev pub In : List Pair → Pair → Type 0
In es e = has e es ≡ true

before_sentry : (now : ℕ) (e : Pair) → before e (now, uintptr_max) ≡ true → leb e.0 now ≡ true
unfolding before
before_sentry now e h = ground arith

from_sentry :
    (now : ℕ) (e : Pair)
    → e.1 < uintptr_max
    → before e (now, uintptr_max) ≡ false
    → ltb now e.0 ≡ true
unfolding before
from_sentry now e small h = ground arith

in_append : (e : Pair) (es l : List Pair) → has e l ≡ true → has e (es ++ l) ≡ true
in_append e es l h = has-append e es l ∙ or_right (has e es) (has e l) h
  where
    or_right : (a b : Bool) → b ≡ true → (a || b) ≡ true
    or_right true b h = refl
    or_right false b h = h

module _ (now : ℕ) (q : Queue) (v : Inv (In []) q) where
  abbrev pub expired : List Pair
  expired = below (now, uintptr_max) q.timers

  abbrev pub rest : List Pair
  rest = from (now, uintptr_max) q.timers

  in_timers : (e : Pair) → has e q.timers ≡ (has e expired || has e rest)
  in_timers e =
      ap (has e) (sym (below-from (now, uintptr_max) q.timers)) ∙ has-append e expired rest

  small : (e : Pair) → has e q.timers ≡ true → e.1 < uintptr_max
  small e h = let w = v.waiting e h in v.fits e.1 w.timer w.at

  rest_later : (e : Pair) → has e rest ≡ true → ltb now e.0 ≡ true
  rest_later e h =
      from_sentry now e
        (small e
          (ap (has e) (sym (below-from (now, uintptr_max) q.timers)) ∙ in_append e expired rest h))
        (has-from (now, uintptr_max) e q.timers v.timers_sorted h)

  expired_due : (e : Pair) → has e expired ≡ true → leb e.0 now ≡ true
  expired_due e h = before_sentry now e (has-below (now, uintptr_max) e q.timers h)

  is_earliest_of :
      (l : List Pair)
      → ((e : Pair) → has e l ≡ true → ltb now e.0 ≡ true)
      → is_earliest now l ≡ true
  unfolding is_earliest
  is_earliest_of [] h = refl
  is_earliest_of (e ∷ l) h = h e (first_in e l)

  -- The entries at or before `now`, and the later ones.
  pub expired_exact : (e : Pair) → has e expired ≡ (has e q.timers && leb e.0 now)
  expired_exact e = elim (Bool-cases (has e expired)) [
    | inl k ↦ ground (arith, in_timers e, expired_due e k)
    | inr k ↦ ground (arith, in_timers e, rest_later e)
  ]

  pub rest_exact : (e : Pair) → has e rest ≡ (has e q.timers && ltb now e.0)
  rest_exact e = elim (Bool-cases (has e rest)) [
    | inl k ↦ ground (arith, in_timers e, rest_later e k)
    | inr k ↦ ground (arith, in_timers e, expired_due e)
  ]

  pub get_expired_lem :
      (r : Queue) × (get_expired now q ≡ some (expired, r))
      × Inv (In expired) r
      × (r.timers ≡ rest)
      × Sorted expired
  unfolding get_expired
  get_expired_lem =
      let whole : Inv (In []) (with_timers (expired ++ rest) q) =
        subst (λ l. Inv (In []) (with_timers l q)) (sym (below-from (now, uintptr_max) q.timers))
          v in
      let (r, runs, inv, timers) = erase_active-Inv (In []) expired rest q whole in
      let before : (length q.timers == length q.active) ≡ true = (==_iff _ _).1 v.sizes in
      let earliest = is_earliest_of rest rest_later in
      let after : (length r.timers == length r.active) ≡ true = (==_iff _ _).1 inv.sizes in
      (
        r,
        rw (before, earliest, runs, after) refl,
        Inv-weaken r inv (λ e h. inv.expired e (inr h)),
        timers,
        below-Sorted (now, uintptr_max) q.timers v.timers_sorted,
      )

-- `getExpired` of a queue that keeps the invariant returns; it takes out exactly the entries that
-- are not after `now`, in order, and the queue that is left keeps the invariant, with the timers that
-- were taken out alive and in neither set.
pub get_expired-exact :
    (now : ℕ) (q : Queue)
    → Inv (In []) q
    → (es : List Pair) × (r : Queue) × (get_expired now q ≡ some (es, r))
      × ((e : Pair) → has e es ≡ (has e q.timers && leb e.0 now))
      × ((e : Pair) → has e r.timers ≡ (has e q.timers && ltb now e.0))
      × Sorted es
      × Inv (In es) r
get_expired-exact now q v =
    let (r, runs, inv, timers, ord) = get_expired_lem now q v in
    (
      expired now q v,
      r,
      runs,
      expired_exact now q v,
      λ e. ap (has e) timers ∙ rest_exact now q v e,
      ord,
      inv,
    )
