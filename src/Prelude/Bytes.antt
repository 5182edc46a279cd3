-- ===== src/Prelude/Bytes.antt =====
-- Machine integers as big-endian bytes, and tests on bytes and byte strings.
use Prim.Native.Nat.{ℕ, ◌+◌, ◌*◌, ◌/◌, ◌%◌, ◌<◌}
use mathlib.Core.Path.{◌≡◌, refl, ap}
use mathlib.Core.Bool.{Bool, true, false, ◌&&◌}
use mathlib.Core.List.{List, [], ◌∷◌}
use mathlib.Core.Option.{Option, none, some}
use native.Mathlib.Omega.{arith}
use nopanic.Prelude.Tests.{◌==◌}

-- `n.to_be_bytes()` of a u32 and of a u16.
unfoldable pub u32_to_be : ℕ → List ℕ
u32_to_be n = (n / 16777216 % 256) ∷ (n / 65536 % 256) ∷ (n / 256 % 256) ∷ (n % 256) ∷ []

unfoldable pub u16_to_be : ℕ → List ℕ
u16_to_be n = (n / 256 % 256) ∷ (n % 256) ∷ []

-- `try_into` an array of the size and `from_be_bytes`; a slice of another length is refused.
unfoldable pub u32_from_be : List ℕ → Option ℕ
u32_from_be (a ∷ b ∷ c ∷ d ∷ []) = some (a * 16777216 + b * 65536 + c * 256 + d)
u32_from_be _ = none

unfoldable pub u16_from_be : List ℕ → Option ℕ
u16_from_be (a ∷ b ∷ []) = some (a * 256 + b)
u16_from_be _ = none

-- A slice as an array of four bytes.
unfoldable pub array4 : List ℕ → Option (List ℕ)
array4 (a ∷ b ∷ c ∷ d ∷ []) = some (a ∷ b ∷ c ∷ d ∷ [])
array4 _ = none

pub u32_from_be-to_be : (n : ℕ) → n < 4294967296 → u32_from_be (u32_to_be n) ≡ some n
unfolding u32_from_be u32_to_be
u32_from_be-to_be n h = ap some (omega arith)

pub u16_from_be-to_be : (n : ℕ) → n < 65536 → u16_from_be (u16_to_be n) ≡ some n
unfolding u16_from_be u16_to_be
u16_from_be-to_be n h = ap some (omega arith)

-- The bytes read and written back.
pub u32_to_be_of :
    (a b c d : ℕ)
    → a < 256
    → b < 256
    → c < 256
    → d < 256
    → u32_to_be (a * 16777216 + b * 65536 + c * 256 + d) ≡ a ∷ b ∷ c ∷ d ∷ []
unfolding u32_to_be
u32_to_be_of a b c d p q r s = ground arith

pub u16_to_be_of : (a b : ℕ) → a < 256 → b < 256 → u16_to_be (a * 256 + b) ≡ a ∷ b ∷ []
unfolding u16_to_be
u16_to_be_of a b p q = ground arith

-- `==` of byte strings.
unfoldable pub bytes_eq : List ℕ → List ℕ → Bool
bytes_eq [] [] = true
bytes_eq (x ∷ xs) (y ∷ ys) = (x == y) && bytes_eq xs ys
bytes_eq _ _ = false

pub bytes_eq_refl : (xs : List ℕ) → bytes_eq xs xs ≡ true
unfolding bytes_eq
bytes_eq_refl [] = refl
bytes_eq_refl (x ∷ xs) = ground (arith, bytes_eq_refl xs)

pub bytes_eq→eq : (xs ys : List ℕ) → bytes_eq xs ys ≡ true → xs ≡ ys
unfolding bytes_eq
bytes_eq→eq [] [] h = refl
bytes_eq→eq (x ∷ xs) (y ∷ ys) h = ground (arith, bytes_eq→eq xs ys)
bytes_eq→eq [] (y ∷ ys) h = cc
bytes_eq→eq (x ∷ xs) [] h = cc

-- The values of a `[u8]`.
abbrev pub IsBytes : List ℕ → Type 0
IsBytes [] = Unit {0}
IsBytes (x ∷ xs) = (x < 256) × IsBytes xs
