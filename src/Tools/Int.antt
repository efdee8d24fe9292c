-- ===== src/Tools/Int.antt =====
-- The type `int` of tools/testing.h and include/minicomps/testing.h, of 32 bits.
use minicomps.Prelude.{
  ℕ, ◌+◌, ◌-◌, ◌%◌, ◌<◌, ◌≡◌, Bool, Option, none, some, if◌then◌else◌, ltb, leb, arith,
}

-- `negsuc n` is -(n + 1).
pub data ℤ : Type 0 where
  pos negsuc : ℕ → ℤ

-- The conversion from a wider type, and the value of an `atomic_int`, keep the low 32 bits.
unfoldable pub to_int : ℕ → ℤ
to_int n =
    let bits = n % 4294967296 in
    if ltb bits 2147483648 then pos bits else negsuc (4294967295 - bits)

abbrev pub in_range : ℤ → Bool
in_range (pos n) = ltb n 2147483648
in_range (negsuc n) = ltb n 2147483648

infixl 65 ◌-ℤ◌
abbrev pub ◌-ℤ◌ : ℤ → ℤ → ℤ
pos a -ℤ pos b = if leb b a then pos (a - b) else negsuc (b - a - 1)
pos a -ℤ negsuc b = pos (a + b + 1)
negsuc a -ℤ pos b = negsuc (a + b)
negsuc a -ℤ negsuc b = if leb a b then pos (b - a) else negsuc (a - b - 1)

-- The subtraction of two `int`s; an overflow, which is undefined, is `none`.
unfoldable pub minus_int : ℤ → ℤ → Option ℤ
minus_int a b = if in_range (a -ℤ b) then some (a -ℤ b) else none

pub to_int-small : (n : ℕ) → n < 2147483648 → to_int n ≡ pos n
unfolding to_int
to_int-small n l = let same : n % 4294967296 ≡ n = omega (arith, l) in rw same (ground (arith, l))

pub minus_int-pos : (a b : ℕ) → a + b < 2147483648 → minus_int (pos (a + b)) (pos a) ≡ some (pos b)
unfolding minus_int
minus_int-pos a b l = ground (arith, l)
