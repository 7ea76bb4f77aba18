-- ===== src/Prelude/Slices.antt =====
-- Laws of `slice`, `take` and `drop`: what a read of a byte array sees after a write to it.
use Prim.Native.Nat.{ℕ, zero, suc, ◌+◌, ◌-◌, ◌≤◌}
use mathlib.Core.Path.{◌≡◌, refl, ap, sym, ◌∙◌}
use mathlib.Core.List.{List, [], ◌∷◌, ◌++◌}
use native.Mathlib.Omega.{arith}
use chat.Prelude.Lists.{
  length, take, drop, take_all, overwrite, write_at, slice, take-nil, drop-nil, length-take,
  length-drop,
}

module _ {ℓ} {A : Type ℓ} where
  pub length-slice : (i n : ℕ) (xs : List A) → i + n ≤ length xs → length (slice i n xs) ≡ n
  length-slice i n xs h = omega (arith, length-take n (drop i xs), length-drop i xs)

  pub take_add : (n m : ℕ) (xs : List A) → take (n + m) xs ≡ take n xs ++ take m (drop n xs)
  take_add zero m xs = ap (λ k. take k xs) (omega arith)
  take_add (suc n) m [] = take-nil (suc n + m) ∙ sym (take-nil m)
  take_add (suc n) m (x ∷ xs) =
      ap (λ k. take k (x ∷ xs)) {x = suc n + m} {y = suc (n + m)} (omega arith)
      ∙ ap (◌∷◌ x) (take_add n m xs)

  pub drop-drop : (n m : ℕ) (xs : List A) → drop m (drop n xs) ≡ drop (n + m) xs
  drop-drop zero m xs = ap (λ k. drop k xs) (omega arith)
  drop-drop (suc n) m [] = drop-nil m ∙ sym (drop-nil (suc n + m))
  drop-drop (suc n) m (x ∷ xs) =
      drop-drop n m xs ∙ ap (λ k. drop k (x ∷ xs)) {x = suc (n + m)} {y = suc n + m} (omega arith)

  -- Two reads in a row are one read.
  pub slice_add :
      (i n m : ℕ) (xs : List A) → slice i (n + m) xs ≡ slice i n xs ++ slice (i + n) m xs
  slice_add i n m xs =
      take_add n m (drop i xs) ∙ ap (λ d. slice i n xs ++ take m d) (drop-drop i n xs)

  pub take-overwrite :
      (ds xs : List A) → length ds ≤ length xs → take (length ds) (overwrite ds xs) ≡ ds
  take-overwrite [] xs h = refl
  take-overwrite (d ∷ ds) [] h = absurd (omega arith)
  take-overwrite (d ∷ ds) (x ∷ xs) h = ap (◌∷◌ d) (take-overwrite ds xs (omega arith))

  -- A read of what was just written.
  pub slice-write_at_self :
      (i : ℕ) (ds xs : List A)
      → i + length ds ≤ length xs
      → slice i (length ds) (write_at i ds xs) ≡ ds
  slice-write_at_self zero ds xs h = take-overwrite ds xs (omega arith)
  slice-write_at_self (suc i) [] [] h = refl
  slice-write_at_self (suc i) (d ∷ ds) [] h = absurd (omega arith)
  slice-write_at_self (suc i) ds (x ∷ xs) h = slice-write_at_self i ds xs (omega arith)

  pub take-write_at : (n i : ℕ) (ds xs : List A) → n ≤ i → take n (write_at i ds xs) ≡ take n xs
  take-write_at zero i ds xs h = refl
  take-write_at (suc n) zero ds xs h = absurd (omega arith)
  take-write_at (suc n) (suc i) ds [] h = refl
  take-write_at (suc n) (suc i) ds (x ∷ xs) h = ap (◌∷◌ x) (take-write_at n i ds xs (omega arith))

  -- A read before what was written.
  pub slice-write_at_before :
      (j n i : ℕ) (ds xs : List A) → j + n ≤ i → slice j n (write_at i ds xs) ≡ slice j n xs
  slice-write_at_before zero n i ds xs h = take-write_at n i ds xs (omega arith)
  slice-write_at_before (suc j) n zero ds xs h = absurd (omega arith)
  slice-write_at_before (suc j) n (suc i) ds [] h = refl
  slice-write_at_before (suc j) n (suc i) ds (x ∷ xs) h =
      slice-write_at_before j n i ds xs (omega arith)

  pub drop-overwrite :
      (j : ℕ) (ds xs : List A) → length ds ≤ j → drop j (overwrite ds xs) ≡ drop j xs
  drop-overwrite j [] xs h = refl
  drop-overwrite zero (d ∷ ds) xs h = absurd (omega arith)
  drop-overwrite (suc j) (d ∷ ds) [] h = refl
  drop-overwrite (suc j) (d ∷ ds) (x ∷ xs) h = drop-overwrite j ds xs (omega arith)

  pub drop-write_at :
      (j i : ℕ) (ds xs : List A) → i + length ds ≤ j → drop j (write_at i ds xs) ≡ drop j xs
  drop-write_at j zero ds xs h = drop-overwrite j ds xs (omega arith)
  drop-write_at zero (suc i) ds xs h = absurd (omega arith)
  drop-write_at (suc j) (suc i) ds [] h = refl
  drop-write_at (suc j) (suc i) ds (x ∷ xs) h = drop-write_at j i ds xs (omega arith)

  -- A read behind what was written.
  pub slice-write_at_after :
      (j n i : ℕ) (ds xs : List A) → i + length ds ≤ j → slice j n (write_at i ds xs) ≡ slice j n xs
  slice-write_at_after j n i ds xs h = ap (take n) (drop-write_at j i ds xs h)

  pub take_append_le : (n : ℕ) (xs ys : List A) → n ≤ length xs → take n (xs ++ ys) ≡ take n xs
  take_append_le zero xs ys h = refl
  take_append_le (suc n) [] ys h = absurd (omega arith)
  take_append_le (suc n) (x ∷ xs) ys h = ap (◌∷◌ x) (take_append_le n xs ys (omega arith))

  pub drop_append_ge :
      (n : ℕ) (xs ys : List A) → length xs ≤ n → drop n (xs ++ ys) ≡ drop (n - length xs) ys
  drop_append_ge n [] ys h = ap (λ k. drop k ys) (omega arith)
  drop_append_ge zero (x ∷ xs) ys h = absurd (omega arith)
  drop_append_ge (suc n) (x ∷ xs) ys h =
      drop_append_ge n xs ys (omega arith)
      ∙ ap (λ k. drop k ys) {x = n - length xs} {y = suc n - suc (length xs)} (omega arith)

  pub drop_append_le :
      (n : ℕ) (xs ys : List A) → n ≤ length xs → drop n (xs ++ ys) ≡ drop n xs ++ ys
  drop_append_le zero xs ys h = refl
  drop_append_le (suc n) [] ys h = absurd (omega arith)
  drop_append_le (suc n) (x ∷ xs) ys h = drop_append_le n xs ys (omega arith)

  -- A read of the middle one of three parts.
  pub slice-middle :
      (i n : ℕ) (xs ys zs : List A)
      → length xs ≡ i
      → length ys ≡ n
      → slice i n (xs ++ (ys ++ zs)) ≡ ys
  slice-middle i n xs ys zs h k =
      ap (take n) (drop_append_ge i xs (ys ++ zs) (omega (arith, h)))
      ∙ ap (λ j. take n (drop j (ys ++ zs))) {x = i - length xs} {y = 0} (omega (arith, h))
      ∙ take_append_le n ys zs (omega (arith, k))
      ∙ take_all n ys (omega (arith, k))

  -- The array grows at its end: reads in the old part are unchanged.
  pub slice-append :
      (i n : ℕ) (xs ys : List A) → i + n ≤ length xs → slice i n (xs ++ ys) ≡ slice i n xs
  slice-append i n xs ys h =
      ap (take n) (drop_append_le i xs ys (omega arith))
      ∙ take_append_le n (drop i xs) ys (omega (arith, length-drop i xs))

  pub take-length_append : (xs ys : List A) → take (length xs) (xs ++ ys) ≡ xs
  take-length_append [] ys = refl
  take-length_append (x ∷ xs) ys = ap (◌∷◌ x) (take-length_append xs ys)

  pub drop-length_append : (xs ys : List A) → drop (length xs) (xs ++ ys) ≡ ys
  drop-length_append [] ys = refl
  drop-length_append (x ∷ xs) ys = drop-length_append xs ys

  pub drop-take : (k n : ℕ) (xs : List A) → drop k (take n xs) ≡ take (n - k) (drop k xs)
  drop-take zero n xs = ap (λ m. take m xs) (omega arith)
  drop-take (suc k) zero xs =
      ap (λ m. take m (drop (suc k) xs)) {x = 0} {y = 0 - suc k} (omega arith)
  drop-take (suc k) (suc n) [] = sym (take-nil (suc n - suc k))
  drop-take (suc k) (suc n) (x ∷ xs) =
      drop-take k n xs ∙ ap (λ m. take m (drop k xs)) {x = n - k} {y = suc n - suc k} (omega arith)

  pub take-take : (n m : ℕ) (xs : List A) → n ≤ m → take n (take m xs) ≡ take n xs
  take-take zero m xs h = refl
  take-take (suc n) zero xs h = absurd (omega arith)
  take-take (suc n) (suc m) [] h = refl
  take-take (suc n) (suc m) (x ∷ xs) h = ap (◌∷◌ x) (take-take n m xs (omega arith))

  -- A slice without its first `k` elements.
  pub drop-slice : (k i n : ℕ) (xs : List A) → drop k (slice i n xs) ≡ slice (i + k) (n - k) xs
  drop-slice k i n xs = drop-take k n (drop i xs) ∙ ap (take (n - k)) (drop-drop i k xs)
