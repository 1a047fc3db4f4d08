-- ===== src/Core/Integer.antt =====
-- The C++ integer types: sizes, and conversion between their values and bit patterns.
use bomba.Base.{ℕ, ◌+◌, ◌-◌, ◌*◌, ◌%◌, ◌^◌, ◌<◌, ◌≡◌, Bool, true, false, arith, ltb, if◌then◌else◌}
use bomba.Base.Int.{ℤ, pos, negsuc}
use native.Mathlib.Nat.{mod-eq_of_lt}
use bomba.Core.Flags.{
  NumericType, int_8, uint_8, int_16, uint_16, int_32, uint_32, int_64, uint_64, float_16, float_32,
  float_64,
}

-- `sizeof`
abbrev pub size_of : NumericType → ℕ
size_of int_8 = 1
size_of uint_8 = 1
size_of int_16 = 2
size_of uint_16 = 2
size_of int_32 = 4
size_of uint_32 = 4
size_of int_64 = 8
size_of uint_64 = 8
size_of float_16 = 2
size_of float_32 = 4
size_of float_64 = 8

abbrev pub is_signed : NumericType → Bool
is_signed uint_8 = false
is_signed uint_16 = false
is_signed uint_32 = false
is_signed uint_64 = false
is_signed _ = true

-- The number of bit patterns.
abbrev pub modulus : NumericType → ℕ
modulus t = 256 ^ size_of t

-- An integer's pattern among `m`, and back.
abbrev pub to_bits : ℕ → ℤ → ℕ
to_bits m (pos n) = n % m
to_bits m (negsuc n) = m - 1 - n % m

abbrev pub of_bits : Bool → ℕ → ℕ → ℤ
of_bits false m b = pos b
of_bits true m b = if ltb (b * 2) m then pos b else negsuc (m - 1 - b)

-- The conversion of a value to an integer type.
unfoldable pub narrow : NumericType → ℤ → ℤ
narrow t v = of_bits (is_signed t) (modulus t) (to_bits (modulus t) v)

abbrev pub InWidth : Bool → ℕ → ℤ → Type 0
InWidth true m (pos n) = n * 2 < m
InWidth true m (negsuc n) = n * 2 + 1 < m
InWidth false m (pos n) = n < m
InWidth false m (negsuc n) = ⊥

-- The values of an integer type.
abbrev pub InRange : NumericType → ℤ → Type 0
InRange t = InWidth (is_signed t) (modulus t)

pub of_bits-to_bits :
    (signed : Bool) (m : ℕ) (v : ℤ) → InWidth signed m v → of_bits signed m (to_bits m v) ≡ v
of_bits-to_bits true m (pos n) h = grind (arith, mod-eq_of_lt)
of_bits-to_bits true m (negsuc n) h = grind (arith, mod-eq_of_lt)
of_bits-to_bits false m (pos n) h = grind (arith, mod-eq_of_lt)
of_bits-to_bits false m (negsuc n) h = absurd h

-- A value of the type is kept.
pub narrow-InRange : (t : NumericType) (v : ℤ) → InRange t v → narrow t v ≡ v
unfolding narrow
narrow-InRange t v h = of_bits-to_bits (is_signed t) (modulus t) v h
