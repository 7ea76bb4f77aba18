-- ===== src/Prelude/Assoc.antt =====
-- Maps with number keys as association lists: `std::map` and `boost::unordered_map`.
use Prim.Native.Nat.{ℕ}
use mathlib.Core.Path.{◌≡◌, refl}
use mathlib.Core.List.{List, [], ◌∷◌}
use mathlib.Core.Option.{Option, none, some}
use native.Mathlib.Omega.{arith}
use chat.Prelude.Tests.{◌==◌, if◌then◌else◌}

module _ {ℓ} {V : Type ℓ} where
  -- `find`.
  unfoldable pub lookup : ℕ → List (ℕ × V) → Option V
  lookup k [] = none
  lookup k ((j, v) ∷ m) = if j == k then some v else lookup k m

  -- `m[k] = v`.
  unfoldable pub put : ℕ → V → List (ℕ × V) → List (ℕ × V)
  put k v [] = (k, v) ∷ []
  put k v ((j, w) ∷ m) = if j == k then (k, v) ∷ m else (j, w) ∷ put k v m

  -- `m.insert(make_pair(k, v))`, which leaves an entry that is there.
  unfoldable pub put_new : ℕ → V → List (ℕ × V) → List (ℕ × V)
  put_new k v [] = (k, v) ∷ []
  put_new k v ((j, w) ∷ m) = if j == k then (j, w) ∷ m else (j, w) ∷ put_new k v m

  -- `m.erase(k)`.
  unfoldable pub remove : ℕ → List (ℕ × V) → List (ℕ × V)
  remove k [] = []
  remove k ((j, w) ∷ m) = if j == k then remove k m else (j, w) ∷ remove k m

  -- The value of a lookup, and one for a missing key.
  abbrev pub or_default : V → Option V → V
  or_default d none = d
  or_default d (some v) = v

  pub lookup-put :
      (k j : ℕ) (v : V) (m : List (ℕ × V))
      → lookup j (put k v m) ≡ (if k == j then some v else lookup j m)
  unfolding lookup put
  lookup-put k j v [] = refl
  lookup-put k j v ((i, w) ∷ m) = ground (arith, lookup-put k j v m)

  pub lookup-put_new :
      (k j : ℕ) (v : V) (m : List (ℕ × V))
      → lookup j (put_new k v m) ≡ (if k == j then some (or_default v (lookup j m)) else lookup j m)
  unfolding lookup put_new
  lookup-put_new k j v [] = ground arith
  lookup-put_new k j v ((i, w) ∷ m) = ground (arith, lookup-put_new k j v m)

  pub lookup-remove :
      (k j : ℕ) (m : List (ℕ × V)) → lookup j (remove k m) ≡ (if k == j then none else lookup j m)
  unfolding lookup remove
  lookup-remove k j [] = ground arith
  lookup-remove k j ((i, w) ∷ m) = ground (arith, lookup-remove k j m)
