-- ===== src/LogStream.antt =====
-- LogStream.cc and LogStream.h: integers as text, in a buffer of fixed size. `none` is a write past the
-- end of the buffer, or a loop that has not ended after its fuel.
pub mod Digits
pub mod Room
mod Tests
use chat.Prelude.{
  ℕ, zero, suc, ◌+◌, ◌-◌, ◌*◌, ◌/◌, ◌%◌, Bool, true, false, not, Option, none, some, List, [], ◌∷◌,
  ◌++◌, ltb, leb, ◌==◌, if◌then◌else◌, ◌>>=◌, ◌>>◌, assert, length,
}
use chat.Prelude.Int.{ℤ, pos, negsuc, pos_part, neg_part, quot, rem}

abbrev pub k_max_numeric_size : ℕ
k_max_numeric_size = 32

-- `zero[lsd]`: the table has the digits in both directions.
abbrev pub digit : ℤ → ℕ
digit (pos n) = 48 + n
digit (negsuc n) = 48 + suc n

abbrev pub is_zero : ℤ → Bool
is_zero i = pos_part i + neg_part i == 0

-- The loop of `convert`: the digits from the last one on.
unfoldable pub digits_from : ℕ → ℤ → Option (List ℕ)
digits_from zero i = none
digits_from (suc fuel) i = do
  let lsd = rem i 10
  let next = quot i 10
  let rest = digits_from fuel next
  if is_zero next then some (digit lsd ∷ []) else (rest >>= λ r. some (digit lsd ∷ r))

abbrev pub reverse : List ℕ → List ℕ
reverse [] = []
reverse (x ∷ l) = reverse l ++ (x ∷ [])

abbrev pub with_sign : ℤ → List ℕ → List ℕ
with_sign (pos n) ds = ds
with_sign (negsuc n) ds = ds ++ (45 ∷ [])

-- Twenty turns are enough for 64 bits.
unfoldable pub convert : ℤ → Option (List ℕ)
convert value = digits_from 20 value >>= λ ds. some (reverse (with_sign value ds))

-- The loop of `convertHex`.
abbrev pub digit_hex : ℕ → ℕ
digit_hex n = if ltb n 10 then 48 + n else 55 + n

unfoldable pub digits_hex_from : ℕ → ℕ → Option (List ℕ)
digits_hex_from zero i = none
digits_hex_from (suc fuel) i = do
  let rest = digits_hex_from fuel (i / 16)
  if i / 16 == 0
      then some (digit_hex (i % 16) ∷ [])
      else (rest >>= λ r. some (digit_hex (i % 16) ∷ r))

unfoldable pub convert_hex : ℕ → Option (List ℕ)
convert_hex value = digits_hex_from 16 value >>= λ ds. some (reverse ds)

-- A buffer of `size` characters, by those before `cur_`.
module _ (size : ℕ) where
  abbrev pub avail : List ℕ → ℕ
  avail written = size - length written

  unfoldable pub append : List ℕ → List ℕ → List ℕ
  append buf written = if ltb (length buf) (avail written) then written ++ buf else written

  -- The text and a zero behind it go to `current()`.
  unfoldable pub format_integer : ℤ → List ℕ → Option (List ℕ)
  format_integer v written =
      if leb k_max_numeric_size (avail written)
      then (convert v >>= λ text.
          (assert (leb (length written + length text + 1) size) >> some (written ++ text)))
      else some written

  unfoldable pub format_pointer : ℕ → List ℕ → Option (List ℕ)
  format_pointer v written =
      if leb k_max_numeric_size (avail written)
      then (convert_hex v >>= λ text.
          (assert (leb (length written + (length text + 2) + 1) size)
            >> some (written ++ (48 ∷ 120 ∷ text))))
      else some written

-- What the operators `<<` take: an integer of any width, a pointer, a bool, a char, a C string, which
-- may be null, and a string.
pub data Value : Type 0 where
  integer : ℤ → Value
  pointer : ℕ → Value
  bool : Bool → Value
  char : ℕ → Value
  c_str : Option (List ℕ) → Value
  string : List ℕ → Value

module _ (size : ℕ) where
  unfoldable pub put : Value → List ℕ → Option (List ℕ)
  put (integer v) written = format_integer size v written
  put (pointer p) written = format_pointer size p written
  put (bool b) written = some (append size ((if b then 49 else 48) ∷ []) written)
  put (char c) written = some (append size (c ∷ []) written)
  put (c_str none) written = some (append size (40 ∷ 110 ∷ 117 ∷ 108 ∷ 108 ∷ 41 ∷ []) written)
  put (c_str (some str)) written = some (append size str written)
  put (string v) written = some (append size v written)

  unfoldable pub put_all : List Value → List ℕ → Option (List ℕ)
  put_all [] written = some written
  put_all (v ∷ vs) written = put v written >>= put_all vs
