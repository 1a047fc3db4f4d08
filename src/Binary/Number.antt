-- ===== src/Binary/Number.antt =====
-- bomba_binary_protocol.hpp, LittleEndianNumberFormat, on a machine of either byte order: the bytes
-- of a number, lowest first.
use bomba.Base.{
  ℕ, zero, suc, ◌+◌, ◌*◌, ◌/◌, ◌%◌, Bool, true, false, [], ◌∷◌, Bytes, length, take, ltb,
  if◌then◌else◌, Option, none, some,
}
use bomba.Base.Int.{ℤ}
use bomba.Core.Flags.{Flags, NumericType, int_64, float_16, float_32, float_64, type_with_flags}
use bomba.Core.Integer.{size_of, is_signed, modulus, to_bits, of_bits, narrow}

-- The conversions between integers and the floating-point types, by their bit patterns: an integer
-- can be written and read under the flags of such a type.
pub record FloatConversion : Type 0 where
  pub pattern : NumericType → ℤ → ℕ
  pub integer_of : NumericType → ℕ → ℤ

unfoldable pub is_float : NumericType → Bool
is_float float_16 = true
is_float float_32 = true
is_float float_64 = true
is_float _ = false

-- The object representation of a pattern in `size` bytes.
unfoldable pub prepare_number : ℕ → ℕ → Bytes
prepare_number zero pattern = []
prepare_number (suc size) pattern = (pattern % 256) ∷ prepare_number size (pattern / 256)

unfoldable pub pattern_of : Bytes → ℕ
pattern_of [] = 0
pattern_of (b ∷ bs) = b + 256 * pattern_of bs

-- What `readNumber` finds.
pub data ReadNumber : Type 0 where
  number : ℤ → ℕ → ReadNumber
  incomplete : ReadNumber
  weird_type : ReadNumber

module _ (fp : FloatConversion) where
  unfoldable pub bits_of : NumericType → ℤ → ℕ
  bits_of t value = if is_float t then fp.pattern t value else to_bits (modulus t) value

  -- The result is an int64_t.
  unfoldable pub value_of : NumericType → ℕ → ℤ
  value_of t bits =
      if is_float t
      then fp.integer_of t bits
      else narrow int_64 (of_bits (is_signed t) (modulus t) bits)

  -- `writeNumber`: the bytes appended; `none` is the exception of `typeWithFlags`.
  unfoldable pub write_number : ℤ → Flags → Option Bytes
  unfolding bits_of is_float
  write_number value flags = elim (type_with_flags flags) [
    | some t ↦ some (prepare_number (size_of t) (bits_of t value))
    | none ↦ none
  ]

  unfoldable pub read_number : Flags → Bytes → ReadNumber
  unfolding value_of is_float narrow
  read_number flags bytes = elim (type_with_flags flags) [
    | some t ↦
        if ltb (length bytes) (size_of t)
        then incomplete
        else number (value_of t (pattern_of (take (size_of t) bytes))) (size_of t)
    | none ↦ weird_type
  ]
