-- ===== src/TimeZone/Search.antt =====
-- TimeZone.cc: the search in the table of transitions finds the last one that is not after a time.
use chat.Prelude.{
  ℕ, zero, suc, Option-cases, ◌-◌, ◌≡◌, refl, sym, ap, ◌∙◌, arith, Bool, true, false, if◌then◌else◌,
  Option, none, some, List, [], ◌∷◌, get_elem?, length, ◌>>=◌, Bool-cases, inl, inr, ◌==◌,
}
use chat.TimeZone.{
  Transition, Localtime, Data, comp, lower_bound, is_before_all, step_back, find_localtime,
}

-- The last transition of a table that is not after the sentry.
abbrev pub latest : Bool → Transition → List Transition → Option Transition
latest gmt s [] = none
latest gmt s (t ∷ ts) = elim (latest gmt s ts) [
  | some u ↦ some u
  | none ↦ if comp gmt s t then none else some t
]

abbrev AllAfter : Bool → Transition → List Transition → Type 0
AllAfter gmt s [] = Unit
AllAfter gmt s (t ∷ ts) = (comp gmt s t ≡ true) × AllAfter gmt s ts

abbrev pub Increasing : Bool → List Transition → Type 0
Increasing gmt [] = Unit
Increasing gmt (t ∷ ts) = AllAfter gmt t ts × Increasing gmt ts

comp_trans :
    (gmt : Bool) (a b c : Transition)
    → comp gmt a b ≡ true
    → comp gmt b c ≡ true
    → comp gmt a c ≡ true
comp_trans gmt a b c h k = ground arith

comp_asym : (gmt : Bool) (a b : Transition) → comp gmt a b ≡ true → comp gmt b a ≡ false
comp_asym gmt a b h = ground arith

comp_after :
    (gmt : Bool) (s t u : Transition)
    → comp gmt s t ≡ false
    → comp gmt t s ≡ false
    → comp gmt t u ≡ true
    → comp gmt s u ≡ true
comp_after gmt s t u h k l = ground arith

AllAfter-trans :
    (gmt : Bool) (s t : Transition) (ts : List Transition)
    → comp gmt s t ≡ true
    → AllAfter gmt t ts
    → AllAfter gmt s ts
AllAfter-trans gmt s t [] h a = tt
AllAfter-trans gmt s t (u ∷ ts) h a = (comp_trans gmt s t u h a.0, AllAfter-trans gmt s t ts h a.1)

AllAfter-equal :
    (gmt : Bool) (s t : Transition) (ts : List Transition)
    → comp gmt s t ≡ false
    → comp gmt t s ≡ false
    → AllAfter gmt t ts
    → AllAfter gmt s ts
AllAfter-equal gmt s t [] h k a = tt
AllAfter-equal gmt s t (u ∷ ts) h k a =
    (comp_after gmt s t u h k a.0, AllAfter-equal gmt s t ts h k a.1)

latest-none :
    (gmt : Bool) (s : Transition) (ts : List Transition)
    → AllAfter gmt s ts
    → latest gmt s ts ≡ none
latest-none gmt s [] a = refl
latest-none gmt s (t ∷ ts) a = rw (latest-none gmt s ts a.1, a.0) refl

abbrev found_or : Bool → Transition → List Transition → ℕ → Option Transition → Option Transition
found_or gmt s ts k (some found) = step_back gmt s ts k found
found_or gmt s ts k none = get_elem? ts (length ts - 1)

-- What the code takes where the sentry is not before all, by the index that `lower_bound` finds.
abbrev chosen_at : Bool → Transition → List Transition → ℕ → Option Transition
chosen_at gmt s ts k = found_or gmt s ts k (get_elem? ts k)

abbrev chosen : Bool → Transition → List Transition → Option Transition
chosen gmt s ts = chosen_at gmt s ts (lower_bound gmt s ts)

lower_bound-here :
    (gmt : Bool) (s x : Transition) (xs : List Transition)
    → comp gmt x s ≡ false
    → lower_bound gmt s (x ∷ xs) ≡ 0
unfolding lower_bound
lower_bound-here gmt s x xs e = rw e refl

lower_bound-later :
    (gmt : Bool) (s x : Transition) (xs : List Transition) (k : ℕ)
    → comp gmt x s ≡ true
    → lower_bound gmt s xs ≡ k
    → lower_bound gmt s (x ∷ xs) ≡ suc k
unfolding lower_bound
lower_bound-later gmt s x xs k e f = rw (e, f) refl

pred_suc : (k : ℕ) → suc k - 1 ≡ k
pred_suc k = omega arith

not_zero : (k : ℕ) → (suc k == 0) ≡ false
not_zero k = ground arith

-- A table whose first entry is before the sentry and whose second is not after it.
step_back-later :
    (gmt : Bool) (s x y : Transition) (ys : List Transition) (k : ℕ) (found : Transition)
    → comp gmt s y ≡ false
    → (k ≡ 0 → found ≡ y)
    → (k ≡ 0 → comp gmt y s ≡ false)
    → step_back gmt s (x ∷ (y ∷ ys)) (suc k) found ≡ step_back gmt s (y ∷ ys) k found
unfolding step_back
step_back-later gmt s x y ys zero found h f g = rw (f refl, h, g refl) refl
step_back-later gmt s x y ys (suc k) found h f g =
    rw (not_zero (suc k), not_zero k, pred_suc (suc k), pred_suc k) refl

latest-some :
    (gmt : Bool) (s y : Transition) (ys : List Transition)
    → comp gmt s y ≡ false
    → (u : Transition) × (latest gmt s (y ∷ ys) ≡ some u)
latest-some gmt s y ys h = elim (Option-cases (latest gmt s ys)) [
  | inl e ↦ (y, rw (e, h) refl)
  | inr (u, e) ↦ (u, rw e refl)
]

first_of :
    (y : Transition) (ys : List Transition) (k : ℕ) (found : Transition)
    → get_elem? (y ∷ ys) k ≡ some found
    → k ≡ 0
    → found ≡ y
first_of y ys zero found e z = cc
first_of y ys (suc k) found e z = absurd (ground arith)

lower_bound_zero :
    (gmt : Bool) (s y : Transition) (ys : List Transition)
    → lower_bound gmt s (y ∷ ys) ≡ 0
    → comp gmt y s ≡ false
unfolding lower_bound
lower_bound_zero gmt s y ys h = elim (Bool-cases (comp gmt y s)) [
  | inl e ↦ absurd (ground (arith, h, e))
  | inr e ↦ e
]

module _ (gmt : Bool) (s x y : Transition) (ys : List Transition) where
  chosen-later :
      comp gmt x s ≡ true
      → comp gmt s y ≡ false
      → chosen gmt s (x ∷ (y ∷ ys)) ≡ chosen gmt s (y ∷ ys)
  chosen-later e h =
      let k = lower_bound gmt s (y ∷ ys) in
      ap (chosen_at gmt s (x ∷ (y ∷ ys))) (lower_bound-later gmt s x (y ∷ ys) k e refl)
      ∙ elim (Option-cases (get_elem? (y ∷ ys) k)) [
        | inl f ↦
            ap (found_or gmt s (x ∷ (y ∷ ys)) (suc k)) f
            ∙ ap (get_elem? (x ∷ (y ∷ ys))) (pred_suc (suc (length ys)))
            ∙ sym (ap (get_elem? (y ∷ ys)) (pred_suc (length ys)))
            ∙ sym (ap (found_or gmt s (y ∷ ys) k) f)
        | inr (found, f) ↦
            ap (found_or gmt s (x ∷ (y ∷ ys)) (suc k)) f
            ∙ step_back-later gmt s x y ys k found h (first_of y ys k found f)
                (lower_bound_zero gmt s y ys)
            ∙ sym (ap (found_or gmt s (y ∷ ys) k) f)
      ]

chosen_here :
    (gmt : Bool) (s x : Transition) (xs : List Transition)
    → comp gmt s x ≡ false
    → comp gmt x s ≡ false
    → chosen gmt s (x ∷ xs) ≡ some x
unfolding step_back
chosen_here gmt s x xs h e =
    ap (chosen_at gmt s (x ∷ xs)) (lower_bound-here gmt s x xs e) ∙ rw (h, e) refl

chosen_between :
    (gmt : Bool) (s x y : Transition) (ys : List Transition)
    → comp gmt x s ≡ true
    → comp gmt s y ≡ true
    → chosen gmt s (x ∷ (y ∷ ys)) ≡ some x
unfolding step_back
chosen_between gmt s x y ys e f =
    ap (chosen_at gmt s (x ∷ (y ∷ ys)))
      (lower_bound-later gmt s x (y ∷ ys) 0 e (lower_bound-here gmt s y ys (comp_asym gmt s y f)))
    ∙ rw f refl

chosen_last : (gmt : Bool) (s x : Transition) → comp gmt x s ≡ true → chosen gmt s (x ∷ []) ≡ some x
unfolding lower_bound
chosen_last gmt s x e = ap (chosen_at gmt s (x ∷ [])) (lower_bound-later gmt s x [] 0 e refl) ∙ refl

chosen-latest :
    (gmt : Bool) (s x : Transition) (xs : List Transition)
    → comp gmt s x ≡ false
    → Increasing gmt (x ∷ xs)
    → chosen gmt s (x ∷ xs) ≡ latest gmt s (x ∷ xs)
chosen-latest gmt s x [] h v = elim (Bool-cases (comp gmt x s)) [
  | inr e ↦ chosen_here gmt s x [] h e ∙ sym (rw h refl)
  | inl e ↦ chosen_last gmt s x e ∙ sym (rw h refl)
]
chosen-latest gmt s x (y ∷ ys) h v = elim (Bool-cases (comp gmt x s)) [
  | inr e ↦
      chosen_here gmt s x (y ∷ ys) h e
      ∙ sym (only_first (latest-none gmt s (y ∷ ys) (AllAfter-equal gmt s x (y ∷ ys) h e v.0)))
  | inl e ↦ elim (Bool-cases (comp gmt s y)) [
    | inl f ↦
        chosen_between gmt s x y ys e f
        ∙ sym (only_first (latest-none gmt s (y ∷ ys) (f, AllAfter-trans gmt s y ys f v.1.0)))
    | inr f ↦
        let (u, last) = latest-some gmt s y ys f in
        chosen-later gmt s x y ys e f
        ∙ chosen-latest gmt s y ys f v.1
        ∙ last
        ∙ sym (still_last u last)
  ]
]
  where
    first_or : Option Transition → Option Transition
    first_or o = elim o [ some u ↦ some u | none ↦ if comp gmt s x then none else some x ]

    only_first : latest gmt s (y ∷ ys) ≡ none → latest gmt s (x ∷ (y ∷ ys)) ≡ some x
    only_first e = ap first_or e ∙ rw h refl

    still_last :
        (u : Transition) → latest gmt s (y ∷ ys) ≡ some u → latest gmt s (x ∷ (y ∷ ys)) ≡ some u
    still_last u e = ap first_or e

-- The local time after a transition, and the first one of the zone.
abbrev pub zone_of : Data → Option Transition → Option Localtime
zone_of d none = get_elem? d.localtimes 0
zone_of d (some t) = get_elem? d.localtimes t.localtime_idx

-- In a table whose times increase, the search finds the local time of the last transition that is not
-- after the sentry, and the first local time of the zone where there is none; a table that is empty
-- is such a case.
pub find_localtime-latest :
    (d : Data) (s : Transition) (gmt : Bool)
    → Increasing gmt d.transitions
    → find_localtime d s gmt ≡ zone_of d (latest gmt s d.transitions)
unfolding find_localtime is_before_all
find_localtime-latest d s gmt v = go d.transitions v
  where
    local : Transition → Option Localtime
    local t = get_elem? d.localtimes t.localtime_idx

    out : Option Transition → Option Localtime
    out = zone_of d

    both :
        (l : List Transition)
        → chosen gmt s l ≡ latest gmt s l
        → (u : Transition) → latest gmt s l ≡ some u
        → (elim (get_elem? l (lower_bound gmt s l)) [
          | some found ↦ step_back gmt s l (lower_bound gmt s l) found >>= local
          | none ↦ get_elem? l (length l - 1) >>= local
        ])
          ≡ local u
    both l p u e = elim (Option-cases (get_elem? l (lower_bound gmt s l))) [
      | inl f ↦
          rw f (ap (λ o. o >>= local) (sym (ap (found_or gmt s l (lower_bound gmt s l)) f) ∙ p ∙ e))
      | inr (found, f) ↦
          rw f (ap (λ o. o >>= local) (sym (ap (found_or gmt s l (lower_bound gmt s l)) f) ∙ p ∙ e))
    ]

    go :
        (l : List Transition)
        → Increasing gmt l
        → find_localtime (record d { transitions = l }) s gmt ≡ out (latest gmt s l)
    go [] w = refl
    go (x ∷ xs) w = elim (Bool-cases (comp gmt s x)) [
      | inl e ↦
          rw e (ap out (sym (latest-none gmt s (x ∷ xs) (e, AllAfter-trans gmt s x xs e w.0))))
      | inr e ↦
          let (u, last) = latest-some gmt s x xs e in
          rw e (both (x ∷ xs) (chosen-latest gmt s x xs e w) u last) ∙ ap out (sym last)
    ]
