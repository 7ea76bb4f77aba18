-- ===== src/LogStream/Room.antt =====
-- LogStream.cc and LogStream.h: no operator writes past the end of the buffer.
use chat.Prelude.{
  ℕ, zero, suc, ◌+◌, ◌*◌, ◌/◌, ◌%◌, ◌^◌, ◌≤◌, ◌<◌, ◌≡◌, refl, arith, true, false, none, some, List,
  [], ◌∷◌, ◌++◌, ltb, leb, ◌==◌, length, length-append, Bool-cases, inl, inr,
}
use chat.Prelude.Int.{pos_part, neg_part}
use chat.LogStream.{
  avail, append, digit_hex, digits_hex_from, convert_hex, reverse, format_pointer, Value, integer,
  pointer, bool, char, c_str, string, put, put_all,
}
use chat.LogStream.Digits.{length-reverse, format_integer-fits}

abbrev sixteen_to : ℕ → ℕ
sixteen_to zero = 1
sixteen_to (suc n) = 16 * sixteen_to n

hex_digits :
    (fuel i : ℕ)
    → i < sixteen_to (suc fuel)
    → (ds : List ℕ) × (digits_hex_from (suc fuel) i ≡ some ds) × (length ds ≤ suc fuel)
unfolding digits_hex_from
hex_digits zero i h =
    let e : (i / 16 == 0) ≡ true = ground arith in (digit_hex (i % 16) ∷ [], rw e refl, omega arith)
hex_digits (suc n) i h = elim (Bool-cases (i / 16 == 0)) [
  | inl e ↦ (digit_hex (i % 16) ∷ [], rw e refl, omega arith)
  | inr e ↦
      let (ds, runs, short) = hex_digits n (i / 16) (omega arith) in
      (digit_hex (i % 16) ∷ ds, rw (e, runs) refl, omega (arith, short))
]

convert_hex-short :
    (p : ℕ) → p < 2 ^ 64 → (text : List ℕ) × (convert_hex p ≡ some text) × (length text ≤ 16)
unfolding convert_hex
convert_hex-short p h =
    let (ds, runs, short) = hex_digits 15 p (omega (arith, h)) in
    (reverse ds, rw runs refl, omega (arith, length-reverse ds, short))

append-fits :
    (size : ℕ) (buf written : List ℕ)
    → length written ≤ size
    → length (append size buf written) ≤ size
unfolding append
append-fits size buf written h = elim (Bool-cases (ltb (length buf) (avail size written))) [
  | inl e ↦
      let small : length buf < avail size written = ground arith in
      rw e (omega (arith, length-append written buf, small))
  | inr e ↦ rw e h
]

format_pointer-fits :
    (size p : ℕ) (written : List ℕ)
    → length written ≤ size
    → p < 2 ^ 64
    → (r : List ℕ) × (format_pointer size p written ≡ some r) × (length r ≤ size)
unfolding format_pointer
format_pointer-fits size p written h k = elim (Bool-cases (leb 32 (avail size written))) [
  | inl e ↦
      let (text, runs, short) = convert_hex-short p k in
      let space : 32 ≤ avail size written = ground arith in
      let room : leb (length written + (length text + 2) + 1) size ≡ true = ground arith in
      (
        written ++ (48 ∷ 120 ∷ text),
        rw (e, runs, room) refl,
        omega (arith, length-append written (48 ∷ 120 ∷ text), short, space),
      )
  | inr e ↦ (written, rw e refl, h)
]

-- Of 64 bits at most, as each of the overloads' types is.
abbrev pub IsWord : Value → Type 0
IsWord (integer v) = pos_part v + neg_part v < 2 ^ 64
IsWord (pointer p) = p < 2 ^ 64
IsWord (bool b) = Unit
IsWord (char c) = Unit
IsWord (c_str s) = Unit
IsWord (string s) = Unit

abbrev pub AllWords : List Value → Type 0
AllWords [] = Unit
AllWords (v ∷ vs) = IsWord v × AllWords vs

put-fits :
    (size : ℕ) (v : Value) (written : List ℕ)
    → length written ≤ size
    → IsWord v
    → (r : List ℕ) × (put size v written ≡ some r) × (length r ≤ size)
unfolding put
put-fits size (integer v) written h k =
    let (r, runs, fits, _, _) = format_integer-fits size v written h k in (r, runs, fits)
put-fits size (pointer p) written h k = format_pointer-fits size p written h k
put-fits size (bool true) written h k = (_, refl, append-fits size (49 ∷ []) written h)
put-fits size (bool false) written h k = (_, refl, append-fits size (48 ∷ []) written h)
put-fits size (char c) written h k = (_, refl, append-fits size (c ∷ []) written h)
put-fits size (c_str none) written h k =
    (_, refl, append-fits size (40 ∷ 110 ∷ 117 ∷ 108 ∷ 108 ∷ 41 ∷ []) written h)
put-fits size (c_str (some s)) written h k = (_, refl, append-fits size s written h)
put-fits size (string s) written h k = (_, refl, append-fits size s written h)

-- Whatever is put into a buffer, in any order and number: every operator returns, and what is written
-- never goes past the buffer's size.
pub put_all-fits :
    (size : ℕ) (vs : List Value) (written : List ℕ)
    → length written ≤ size
    → AllWords vs
    → (r : List ℕ) × (put_all size vs written ≡ some r) × (length r ≤ size)
unfolding put_all
put_all-fits size [] written h k = (written, refl, h)
put_all-fits size (v ∷ vs) written h k =
    let (r, runs, fits) = put-fits size v written h k.0 in rw runs (put_all-fits size vs r fits k.1)
