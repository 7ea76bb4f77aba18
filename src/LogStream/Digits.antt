-- ===== src/LogStream/Digits.antt =====
-- LogStream.cc: the text of an integer reads back as the integer, and it fits.
use chat.Prelude.{
  ℕ, zero, suc, ◌+◌, ◌-◌, ◌*◌, ◌/◌, ◌%◌, ◌^◌, ◌≤◌, ◌<◌, ◌≡◌, refl, sym, ap, ◌∙◌, arith, true, false,
  some, List, [], ◌∷◌, ◌++◌, leb, ◌==◌, if◌then◌else◌, length, length-append, Bool-cases, inl, inr,
  append-nil, append_assoc,
}
use chat.Prelude.Int.{ℤ, pos, negsuc, pos_part, neg_part, sub_ℕ, quot, rem}
use chat.LogStream.{
  digit, is_zero, digits_from, reverse, convert, format_integer, avail, k_max_numeric_size,
}

abbrev magnitude : ℤ → ℕ
magnitude i = pos_part i + neg_part i

-- C's division and remainder, by magnitude.
magnitude-quot : (i : ℤ) → magnitude (quot i 10) ≡ magnitude i / 10
unfolding quot
magnitude-quot (pos n) = omega arith
magnitude-quot (negsuc n) = ground arith

digit-rem : (i : ℤ) → digit (rem i 10) ≡ 48 + magnitude i % 10
unfolding rem
digit-rem (pos n) = omega arith
digit-rem (negsuc n) = ground arith

-- The number that digits stand for, the last one first.
abbrev pub number : List ℕ → ℕ
number [] = 0
number (d ∷ ds) = d - 48 + 10 * number ds

abbrev ten_to : ℕ → ℕ
ten_to zero = 1
ten_to (suc n) = 10 * ten_to n

abbrev pub AllDigits : List ℕ → Type 0
AllDigits [] = Unit
AllDigits (d ∷ ds) = (48 ≤ d) × (d ≤ 57) × AllDigits ds

record Ended (fuel : ℕ) (i : ℤ) : Type 0 where
  ds : List ℕ
  runs : digits_from fuel i ≡ some ds
  stands_for : number ds ≡ magnitude i
  fits : length ds ≤ fuel
  digits : AllDigits ds
  filled : 0 < length ds

last_digit : (fuel : ℕ) (i : ℤ) → is_zero (quot i 10) ≡ true → Ended (suc fuel) i
unfolding digits_from
last_digit fuel i e =
    let small : magnitude i / 10 ≡ 0 = sym (magnitude-quot i) ∙ ground arith in
    record {
      ds = digit (rem i 10) ∷ [];
      runs = rw e refl;
      stands_for = omega (arith, digit-rem i);
      fits = omega arith;
      digits = (omega (arith, digit-rem i), omega (arith, digit-rem i), tt);
      filled = omega arith;
    }

next_turn :
    (fuel : ℕ) (i : ℤ) → is_zero (quot i 10) ≡ false → Ended fuel (quot i 10) → Ended (suc fuel) i
unfolding digits_from
next_turn fuel i e o = record {
  ds = digit (rem i 10) ∷ o.ds;
  runs = rw (e, o.runs) refl;
  stands_for = omega (arith, digit-rem i, o.stands_for, magnitude-quot i);
  fits = omega (arith, o.fits);
  digits = (omega (arith, digit-rem i), omega (arith, digit-rem i), o.digits);
  filled = omega arith;
}

digits_from-Ended : (fuel : ℕ) (i : ℤ) → magnitude i < ten_to (suc fuel) → Ended (suc fuel) i
digits_from-Ended zero i h = last_digit zero i (ground (arith, magnitude-quot i))
digits_from-Ended (suc n) i h = elim (Bool-cases (is_zero (quot i 10))) [
  | inl e ↦ last_digit (suc n) i e
  | inr e ↦
      next_turn (suc n) i e (digits_from-Ended n (quot i 10) (omega (arith, magnitude-quot i)))
]

-- The integer that a text reads as: a sign, and digits with the first one first.
abbrev pub read_integer : List ℕ → ℤ
read_integer [] = pos 0
read_integer (c ∷ text) =
    if c == 45 then sub_ℕ 0 (number (reverse text)) else pos (number (reverse (c ∷ text)))

reverse-append : (xs ys : List ℕ) → reverse (xs ++ ys) ≡ reverse ys ++ reverse xs
reverse-append [] ys = sym (append-nil (reverse ys))
reverse-append (x ∷ xs) ys =
    ap (λ l. l ++ (x ∷ [])) (reverse-append xs ys) ∙ append_assoc (reverse ys) (reverse xs) (x ∷ [])

reverse-reverse : (xs : List ℕ) → reverse (reverse xs) ≡ xs
reverse-reverse [] = refl
reverse-reverse (x ∷ xs) =
    reverse-append (reverse xs) (x ∷ []) ∙ ap (λ l. x ∷ l) (reverse-reverse xs)

pub length-reverse : (xs : List ℕ) → length (reverse xs) ≡ length xs
length-reverse [] = refl
length-reverse (x ∷ xs) = omega (arith, length-append (reverse xs) (x ∷ []), length-reverse xs)

AllDigits-append :
    (xs : List ℕ) (d : ℕ) → AllDigits xs → 48 ≤ d → d ≤ 57 → AllDigits (xs ++ (d ∷ []))
AllDigits-append [] d a h k = (h, k, tt)
AllDigits-append (x ∷ xs) d a h k = (a.0, a.1, AllDigits-append xs d a.2 h k)

AllDigits-reverse : (xs : List ℕ) → AllDigits xs → AllDigits (reverse xs)
AllDigits-reverse [] a = tt
AllDigits-reverse (x ∷ xs) a = AllDigits-append (reverse xs) x (AllDigits-reverse xs a.2) a.0 a.1

-- Digits without a sign.
read_plain : (text : List ℕ) → AllDigits text → read_integer text ≡ pos (number (reverse text))
read_plain [] a = refl
read_plain (c ∷ text) a = let no_sign : (c == 45) ≡ false = ground (arith, a.0) in rw no_sign refl

-- An integer of at most 64 bits becomes a text that reads as the integer, with or without a sign, in at
-- most 21 characters, so that it fits into the room that is asked for, the zero included; the loop ends
-- within twenty turns.
pub convert-read_integer :
    (v : ℤ)
    → pos_part v + neg_part v < 2 ^ 64
    → (text : List ℕ) × (convert v ≡ some text)
      × (read_integer text ≡ v)
      × (length text ≤ 21)
      × (length text + 1 ≤ k_max_numeric_size)
unfolding convert
convert-read_integer (pos n) h =
    let o = digits_from-Ended 19 (pos n) (omega (arith, h)) in
    let size = length-reverse o.ds in
    (
      reverse o.ds,
      rw o.runs refl,
      read_plain (reverse o.ds) (AllDigits-reverse o.ds o.digits)
          ∙ ap (λ l. pos (number l)) (reverse-reverse o.ds)
          ∙ ap pos (omega (arith, o.stands_for)),
      omega (arith, size, o.fits),
      omega (arith, size, o.fits),
    )
convert-read_integer (negsuc n) h =
    let o = digits_from-Ended 19 (negsuc n) (omega (arith, h)) in
    let size = length-reverse o.ds in
    let shape : reverse (o.ds ++ (45 ∷ [])) ≡ 45 ∷ reverse o.ds = reverse-append o.ds (45 ∷ []) in
    (
      45 ∷ reverse o.ds,
      rw o.runs (ap some shape),
      ap (λ l. sub_ℕ 0 (number l)) (reverse-reverse o.ds)
          ∙ ap (sub_ℕ 0) (o.stands_for)
          ∙ ground arith,
      omega (arith, size, o.fits),
      omega (arith, size, o.fits),
    )

-- An integer of at most 64 bits goes behind what is there, as a text that reads as the integer, where
-- there is room for the longest one, 32 characters; with less room nothing is written. What is written
-- never goes past the end.
pub format_integer-fits :
    (size : ℕ) (v : ℤ) (written : List ℕ)
    → length written ≤ size
    → pos_part v + neg_part v < 2 ^ 64
    → (r : List ℕ) × (format_integer size v written ≡ some r)
      × (length r ≤ size)
      × (32 ≤ avail size written
          → (text : List ℕ) × (r ≡ written ++ text) × (read_integer text ≡ v))
      × (avail size written < 32 → r ≡ written)
unfolding format_integer
format_integer-fits size v written h k = elim (Bool-cases (leb 32 (avail size written))) [
  | inl e ↦
      let (text, runs, reads, short, with_zero) = convert-read_integer v k in
      let space : 32 ≤ avail size written = ground arith in
      let room : leb (length written + length text + 1) size ≡ true = ground arith in
      (
        written ++ text,
        rw (e, runs, room) refl,
        omega (arith, length-append written text, short, space),
        λ m. (text, refl, reads),
        λ m. absurd (ground arith),
      )
  | inr e ↦ (written, rw e refl, h, λ m. absurd (ground arith), λ m. refl)
]
