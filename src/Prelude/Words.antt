-- ===== src/Prelude/Words.antt =====
-- `size_t` and `int32_t`, kept as native numbers with their wrap-around written out, and the
-- bytes of an integer on the wire.
use Prim.Native.Nat.{ℕ, suc, ◌+◌, ◌-◌, ◌*◌, ◌/◌, ◌%◌, ◌^◌, ◌<◌, ◌≤◌}
use mathlib.Core.Path.{◌≡◌, refl}
use mathlib.Core.List.{List, [], ◌∷◌, ◌++◌}
use native.Mathlib.Omega.{arith}
use chat.Prelude.Tests.{ltb, if◌then◌else◌}
use chat.Prelude.Lists.{take}
use chat.Prelude.Int.{ℤ, pos, negsuc}

abbrev pub size_mod : ℕ
size_mod = 2 ^ 64

-- `size_t` addition and subtraction.
abbrev pub add_size : ℕ → ℕ → ℕ
add_size a b = (a + b) % 2 ^ 64

abbrev pub sub_size : ℕ → ℕ → ℕ
sub_size a b = (a + 2 ^ 64 - b) % 2 ^ 64

-- The largest size of a `std::vector<char>`: a larger one throws `std::length_error`.
abbrev pub max_size : ℕ
max_size = 2 ^ 63 - 1

-- An `int32_t` is its bit pattern, below 2 ^ 32; this is the integer that it stands for.
abbrev pub signed32 : ℕ → ℤ
signed32 w = if ltb w (2 ^ 31) then pos w else negsuc (2 ^ 32 - w - 1)

-- The bit pattern of a `size_t` cast to `int32_t`.
abbrev pub to_int32 : ℕ → ℕ
to_int32 n = n % 2 ^ 32

-- The conversion of a signed integer to `int`.
abbrev pub to_int : ℤ → ℤ
to_int (pos n) = signed32 (n % 2 ^ 32)
to_int (negsuc n) = signed32 (2 ^ 32 - 1 - n % 2 ^ 32)

-- The conversion of a signed integer to `size_t`.
abbrev pub to_size : ℤ → ℕ
to_size (pos n) = n % 2 ^ 64
to_size (negsuc n) = (2 ^ 64 - suc n) % 2 ^ 64

-- The bytes of `hostToNetwork32(w)` in memory: the most significant one first.
abbrev pub network_bytes32 : ℕ → List ℕ
network_bytes32 w = (w / 2 ^ 24 % 256) ∷ (w / 2 ^ 16 % 256) ∷ (w / 2 ^ 8 % 256) ∷ (w % 256) ∷ []

-- The same of 64 bits, and their value.
abbrev pub network_bytes64 : ℕ → List ℕ
network_bytes64 w = network_bytes32 (w / 2 ^ 32) ++ network_bytes32 w

-- `networkToHost32` of the first four bytes in memory. Fewer than four are never read.
abbrev pub network_value32 : List ℕ → ℕ
network_value32 (a ∷ b ∷ c ∷ d ∷ _) = a * 2 ^ 24 + b * 2 ^ 16 + c * 2 ^ 8 + d
network_value32 _ = 0

-- `networkToHost64` of the first eight bytes in memory.
abbrev pub network_value64 : List ℕ → ℕ
network_value64 (a ∷ b ∷ c ∷ d ∷ r) =
    network_value32 (a ∷ b ∷ c ∷ d ∷ []) * 2 ^ 32 + network_value32 r
network_value64 _ = 0

-- A word read back from its bytes.
pub network_value64-bytes : (w : ℕ) → w < 2 ^ 64 → network_value64 (network_bytes64 w) ≡ w
network_value64-bytes w h = omega arith

pub network_value32-bytes :
    (w : ℕ) (r : List ℕ) → w < 2 ^ 32 → network_value32 (network_bytes32 w ++ r) ≡ w
network_value32-bytes w r h = omega arith

pub add_size-eq : (a b : ℕ) → a + b < 2 ^ 64 → add_size a b ≡ a + b
add_size-eq a b h = omega arith

pub sub_size-eq : (a b : ℕ) → a < 2 ^ 64 → b ≤ a → sub_size a b ≡ a - b
sub_size-eq a b h k = omega arith

pub network_value32-take : (xs : List ℕ) → network_value32 (take 4 xs) ≡ network_value32 xs
network_value32-take [] = refl
network_value32-take (a ∷ []) = refl
network_value32-take (a ∷ b ∷ []) = refl
network_value32-take (a ∷ b ∷ c ∷ []) = refl
network_value32-take (a ∷ b ∷ c ∷ d ∷ xs) = refl
