-- ===== src/LogStream/Tests.antt =====
-- LogStream.cc and LogStream.h: small runs.
use chat.Prelude.{ℕ, ◌≡◌, ◌≤◌, ◌<◌, refl, arith, true, none, some, List, [], ◌∷◌, ◌++◌, length}
use chat.Prelude.Int.{pos, negsuc, quot, rem}
use chat.LogStream.{
  convert, digits_from, convert_hex, digits_hex_from, avail, append, format_integer, format_pointer,
  put_all, put, Value, integer, pointer, bool, c_str,
}
use chat.LogStream.Digits.{read_integer, format_integer-fits}
use chat.LogStream.Room.{put_all-fits}

minus_42 : convert (negsuc 41) ≡ some (45 ∷ 52 ∷ 50 ∷ [])
unfolding convert digits_from quot rem
minus_42 = refl

hex_43981 : convert_hex 43981 ≡ some (65 ∷ 66 ∷ 67 ∷ 68 ∷ [])
unfolding convert_hex digits_hex_from
hex_43981 = refl

abbrev hi : List ℕ
hi = 104 ∷ 105 ∷ []

abbrev four_values : List Value
four_values = integer (negsuc 6) ∷ pointer 10 ∷ c_str none ∷ bool true ∷ []

-- `-7`, `0xA`, `(null)`; the last value has no room, since a byte is kept free.
four_values_written :
    put_all 34 four_values []
    ≡ some (45 ∷ 55 ∷ 48 ∷ 120 ∷ 65 ∷ 40 ∷ 110 ∷ 117 ∷ 108 ∷ 108 ∷ 41 ∷ 49 ∷ [])
unfolding put_all put append format_integer format_pointer convert digits_from convert_hex
    digits_hex_from quot rem
four_values_written = refl

-- Too full for an integer, though it is short.
no_room : format_integer 33 (pos 7) hi ≡ some hi
unfolding format_integer
no_room = refl

format_integer-fits_example :
    (r : List ℕ) × (format_integer 40 (negsuc 41) hi ≡ some r)
    × (length r ≤ 40)
    × (32 ≤ avail 40 hi → (text : List ℕ) × (r ≡ hi ++ text) × (read_integer text ≡ negsuc 41))
    × (avail 40 hi < 32 → r ≡ hi)
format_integer-fits_example = format_integer-fits 40 (negsuc 41) hi (omega arith) (omega arith)

put_all-fits_example : (r : List ℕ) × (put_all 40 four_values hi ≡ some r) × (length r ≤ 40)
put_all-fits_example =
    put_all-fits 40 four_values hi (omega arith) (omega arith, (omega arith, (tt, (tt, tt))))
