-- ===== src/TimerQueue/Sets.antt =====
-- `std::set` of pairs of numbers, kept in the order of `std::pair`: the sets of TimerQueue.h.
use chat.Prelude.{
  ℕ, subst, ◌≡◌, refl, ap, sym, ◌∙◌, Bool, true, false, not, ◌&&◌, ◌||◌, List, [], ◌∷◌, ◌++◌, suc,
  arith, length, ltb, ◌==◌, if◌then◌else◌, Bool-cases, inl, inr, ◌⊎◌,
}

abbrev pub Pair : Type 0
Pair = ℕ × ℕ

-- `std::pair`'s operator< and the equality that follows from it.
unfoldable pub before : Pair → Pair → Bool
before a b = ltb a.0 b.0 || (a.0 == b.0 && ltb a.1 b.1)

unfoldable pub same : Pair → Pair → Bool
same a b = a.0 == b.0 && a.1 == b.1

-- `find(x) != end()`.
unfoldable pub has : Pair → List Pair → Bool
has x [] = false
has x (y ∷ s) = same x y || has x s

-- `insert(x)`, which leaves an element that is there.
unfoldable pub insert_pair : Pair → List Pair → List Pair
insert_pair x [] = x ∷ []
insert_pair x (y ∷ s) =
    if before x y then x ∷ (y ∷ s) else (if before y x then y ∷ insert_pair x s else y ∷ s)

-- `erase(x)`.
unfoldable pub erase_pair : Pair → List Pair → List Pair
erase_pair x [] = []
erase_pair x (y ∷ s) = if same x y then s else y ∷ erase_pair x s

-- The elements before `lower_bound(x)`, and those from it on.
unfoldable pub below : Pair → List Pair → List Pair
below x [] = []
below x (y ∷ s) = if before y x then y ∷ below x s else []

unfoldable pub from : Pair → List Pair → List Pair
from x [] = []
from x (y ∷ s) = if before y x then from x s else y ∷ s

pub same→≡ : (a b : Pair) → same a b ≡ true → a ≡ b
unfolding same
same→≡ a b h = ground arith

pub same_refl : (a : Pair) → same a a ≡ true
unfolding same
same_refl a = ground arith

pub same_sym : (a b : Pair) → same a b ≡ same b a
unfolding same
same_sym a b = ground arith

pub same-differs : (p n j s : ℕ) → (p == j) ≡ false → same (j, s) (p, n) ≡ false
unfolding same
same-differs p n j s e = ground arith

pub before_irrefl : (a b : Pair) → before a b ≡ true → same a b ≡ false
unfolding before same
before_irrefl a b h = ground arith

pub before_trans : (a b c : Pair) → before a b ≡ true → before b c ≡ true → before a c ≡ true
unfolding before
before_trans a b c h k = ground arith

pub before_total : (a b : Pair) → before a b ≡ false → before b a ≡ false → same a b ≡ true
unfolding before same
before_total a b h k = ground arith

-- `ground` splits on the tests it meets; these say what `has` sees after each operation.
same_eq : (a b y : Pair) → same a b ≡ true → same y a ≡ same y b
same_eq a b y h = ap (same y) (same→≡ a b h)

or_swap : (a b c : Bool) → (a || (b || c)) ≡ (b || (a || c))
or_swap true true c = refl
or_swap true false c = refl
or_swap false true c = refl
or_swap false false c = refl

or_same : (a b : Bool) → (a || b) ≡ (a || (a || b))
or_same true b = refl
or_same false b = refl

pub has-insert_pair : (x y : Pair) (s : List Pair) → has y (insert_pair x s) ≡ (same y x || has y s)
unfolding has insert_pair
has-insert_pair x y [] = refl
has-insert_pair x y (z ∷ s) = elim (Bool-cases (before x z)) [
  | inl e ↦ rw e refl
  | inr e ↦ elim (Bool-cases (before z x)) [
    | inl f ↦
        rw (e, f)
          (ap (λ b. same y z || b) (has-insert_pair x y s)
            ∙ or_swap (same y z) (same y x) (has y s))
    | inr f ↦ rw (e, f, same_eq x z y (before_total x z e f)) (or_same (same y z) (has y s))
  ]
]

pub length-insert_pair :
    (x : Pair) (s : List Pair) → has x s ≡ false → length (insert_pair x s) ≡ suc (length s)
unfolding has insert_pair
length-insert_pair x [] h = refl
length-insert_pair x (z ∷ s) h = elim (Bool-cases (before x z)) [
  | inl e ↦ rw e refl
  | inr e ↦ elim (Bool-cases (before z x)) [
    | inl f ↦ rw (e, f) (ap suc (length-insert_pair x s (or_right (same x z) (has x s) h)))
    | inr f ↦ absurd (ground (arith, before_total x z e f))
  ]
]
  where
    or_right : (a b : Bool) → (a || b) ≡ false → b ≡ false
    or_right true b h = absurd (ground arith)
    or_right false b h = h

-- Before all of the set.
abbrev pub Above : Pair → List Pair → Type 0
Above x s = (y : Pair) → has y s ≡ true → before x y ≡ true

abbrev pub Sorted : List Pair → Type 0
Sorted [] = Unit
Sorted (x ∷ s) = Above x s × Sorted s

pub or_cases : (a b : Bool) → (a || b) ≡ true → (a ≡ true) ⊎ (b ≡ true)
or_cases true b h = inl refl
or_cases false b h = inr h

has-Above :
    (x y z : Pair) (s : List Pair)
    → Above x s
    → before x z ≡ true
    → (same y z || has y s) ≡ true
    → before x y ≡ true
has-Above x y z s a b h = elim (or_cases (same y z) (has y s) h) [
  | inl e ↦ subst (λ w. before x w ≡ true) (sym (same→≡ y z e)) b
  | inr e ↦ a y e
]

Above-before : (x z : Pair) (s : List Pair) → before x z ≡ true → Above z s → Above x s
Above-before x z s b a y h = before_trans x z y b (a y h)

pub insert_pair-Sorted : (x : Pair) (s : List Pair) → Sorted s → Sorted (insert_pair x s)
unfolding insert_pair has
insert_pair-Sorted x [] v = ((λ y h. absurd (ground arith)), tt)
insert_pair-Sorted x (z ∷ s) v = elim (Bool-cases (before x z)) [
  | inl e ↦ rw e ((λ y h. has-Above x y z s (Above-before x z s e v.0) e h), v)
  | inr e ↦ elim (Bool-cases (before z x)) [
    | inl f ↦
        rw (e, f)
          (
            (λ y h. has-Above z y x s v.0 f (sym (has-insert_pair x y s) ∙ h)),
            insert_pair-Sorted x s v.1,
          )
    | inr f ↦ rw (e, f) v
  ]
]

-- An element that stands before a set is not in it.
pub Above-fresh : (x : Pair) (s : List Pair) → Above x s → has x s ≡ false
Above-fresh x s a = elim (Bool-cases (has x s)) [
  | inl e ↦ absurd (ground (arith, before_irrefl x x (a x e), same_refl x))
  | inr e ↦ e
]

same_has : (x y : Pair) (s : List Pair) → same x y ≡ true → has x s ≡ has y s
same_has x y s e = ap (λ w. has w s) (same→≡ x y e)

pub has-erase_pair :
    (x y : Pair) (s : List Pair) → Sorted s → has y (erase_pair x s) ≡ (not (same y x) && has y s)
unfolding has erase_pair
has-erase_pair x y [] v = ground arith
has-erase_pair x y (z ∷ s) v = elim (Bool-cases (same x z)) [
  | inl e ↦ elim (Bool-cases (same y z)) [
    | inl f ↦ rw (e, same_eq x z y e, f, same_has y z s f) (Above-fresh z s v.0)
    | inr f ↦ rw (e, same_eq x z y e, f) refl
  ]
  | inr e ↦ elim (Bool-cases (same y z)) [
    | inl f ↦ rw (e, ap (λ w. same w x) (same→≡ y z f) ∙ same_sym z x ∙ e, f) refl
    | inr f ↦ rw (e, f) (has-erase_pair x y s v.1)
  ]
]

pub length-erase_pair :
    (x : Pair) (s : List Pair) → has x s ≡ true → length s ≡ suc (length (erase_pair x s))
unfolding has erase_pair
length-erase_pair x [] h = absurd (ground arith)
length-erase_pair x (z ∷ s) h = elim (Bool-cases (same x z)) [
  | inl e ↦ rw e refl
  | inr e ↦ rw e (ap suc (length-erase_pair x s (ap (λ b. b || has x s) (sym e) ∙ h)))
]

pub erase_pair-Sorted : (x : Pair) (s : List Pair) → Sorted s → Sorted (erase_pair x s)
unfolding erase_pair
erase_pair-Sorted x [] v = tt
erase_pair-Sorted x (z ∷ s) v = elim (Bool-cases (same x z)) [
  | inl e ↦ rw e v.1
  | inr e ↦ rw e (
    (λ y h. v.0 y (and_right (not (same y x)) (has y s) (sym (has-erase_pair x y s v.1) ∙ h))),
    erase_pair-Sorted x s v.1,
  )
]
  where
    and_right : (a b : Bool) → (a && b) ≡ true → b ≡ true
    and_right true b h = h
    and_right false b h = absurd (ground arith)

pub below-from : (x : Pair) (s : List Pair) → below x s ++ from x s ≡ s
unfolding below from
below-from x [] = refl
below-from x (z ∷ s) = elim (Bool-cases (before z x)) [
  | inl e ↦ rw e (ap (◌∷◌ z) (below-from x s))
  | inr e ↦ rw e refl
]

pub has-below : (x y : Pair) (s : List Pair) → has y (below x s) ≡ true → before y x ≡ true
unfolding below has
has-below x y [] h = absurd (ground arith)
has-below x y (z ∷ s) h = elim (Bool-cases (before z x)) [
  | inl e ↦ elim (or_cases (same y z) (has y (below x s)) (sym (rw e refl) ∙ h)) [
    | inl f ↦ subst (λ w. before w x ≡ true) (sym (same→≡ y z f)) e
    | inr f ↦ has-below x y s f
  ]
  | inr e ↦ absurd (ground arith)
]

not_before : (x y z : Pair) → before z x ≡ false → before z y ≡ true → before y x ≡ false
not_before x y z e f = elim (Bool-cases (before y x)) [
  | inl g ↦ absurd (ground (arith, before_trans z y x f g))
  | inr g ↦ g
]

pub has-from :
    (x y : Pair) (s : List Pair) → Sorted s → has y (from x s) ≡ true → before y x ≡ false
unfolding from has
has-from x y [] v h = absurd (ground arith)
has-from x y (z ∷ s) v h = elim (Bool-cases (before z x)) [
  | inl e ↦ has-from x y s v.1 (sym (rw e refl) ∙ h)
  | inr e ↦ elim (or_cases (same y z) (has y s) (sym (rw e refl) ∙ h)) [
    | inl f ↦ subst (λ w. before w x ≡ false) (sym (same→≡ y z f)) e
    | inr f ↦ not_before x y z e (v.0 y f)
  ]
]

pub has-append : (y : Pair) (s t : List Pair) → has y (s ++ t) ≡ (has y s || has y t)
unfolding has
has-append y [] t = refl
has-append y (z ∷ s) t = rw (has-append y s t) (or_assoc (same y z) (has y s) (has y t))
  where
    or_assoc : (a b c : Bool) → (a || (b || c)) ≡ ((a || b) || c)
    or_assoc true b c = refl
    or_assoc false b c = refl

or_left : (a b : Bool) → a ≡ true → (a || b) ≡ true
or_left true b h = refl
or_left false b h = absurd (ground arith)

Sorted-left : (s t : List Pair) → Sorted (s ++ t) → Sorted s
Sorted-left [] t v = tt
Sorted-left (z ∷ s) t v =
    ((λ y h. v.0 y (has-append y s t ∙ or_left (has y s) (has y t) h)), Sorted-left s t v.1)

Sorted-right : (s t : List Pair) → Sorted (s ++ t) → Sorted t
Sorted-right [] t v = v
Sorted-right (z ∷ s) t v = Sorted-right s t v.1

pub below-Sorted : (x : Pair) (s : List Pair) → Sorted s → Sorted (below x s)
below-Sorted x s v = Sorted-left (below x s) (from x s) (subst Sorted (sym (below-from x s)) v)

pub from-Sorted : (x : Pair) (s : List Pair) → Sorted s → Sorted (from x s)
from-Sorted x s v = Sorted-right (below x s) (from x s) (subst Sorted (sym (below-from x s)) v)
