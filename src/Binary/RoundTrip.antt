-- ===== src/Binary/RoundTrip.antt =====
-- What the binary writer wrote, read by the binary reader: numbers, strings and booleans.
pub mod Encodes
pub mod Vector
pub mod Whole
use Prim.Native.Nat.{bit_or}
use bomba.Base.{
  ℕ, zero, suc, ◌+◌, ◌*◌, ◌/◌, ◌%◌, ◌^◌, ◌≤◌, ◌<◌, Bool, true, false, not, [], ◌∷◌, ◌++◌, Bytes,
  length, length-append, take, drop, drop-drop, length-drop, drop-length_append, take-length_append,
  get_elem?, get_elem?-drop, ltb, ◌==◌, if◌then◌else◌, some, none, ◌≡◌, refl, sym, ap, ◌∙◌, arith,
}
use bomba.Base.Int.{ℤ, pos, negsuc}
use bomba.Base.Outcome.{ok, raise, parse_error, ◌>>=◌, ◌>>◌, return, >>=-ok}
use bomba.Binary.Input
use bomba.Binary.Input.{Input, remaining, advance}
use bomba.Binary.Number.{
  FloatConversion, is_float, prepare_number, pattern_of, bits_of, value_of, write_number,
  read_number, number, incomplete,
}
use bomba.Binary.Output
use bomba.Core.Flags.{
  Flags, NumericType, int_8, uint_8, int_16, uint_16, int_32, uint_32, int_64, uint_64, float_16,
  float_32, float_64, type_to_flags, type_with_flags,
}
use bomba.Core.Flags.Types.{IsPlain, type_with_flags-type_to_flags, plain-has_flag}
use bomba.Core.Integer.{size_of, modulus, InRange, InWidth, is_signed, to_bits, of_bits, narrow}
use native.Mathlib.Nat.{pow-suc}

-- The reader stands in front of `rest`.
abbrev pub Stands : Input → Bytes → Type 0
Stands i rest = remaining i ≡ rest

pub Stands-advance :
    (i : Input) (xs rest : Bytes) → Stands i (xs ++ rest) → Stands (advance (length xs) i) rest
Stands-advance i xs rest h =
    drop-drop i.position (length xs) i.contents
    ∙ ap (drop (length xs)) h
    ∙ drop-length_append xs rest

-- The int64_t values that a type holds. Those of `uint64_t` are the int64_t of the same pattern.
abbrev pub Fits : NumericType → ℤ → Type 0
Fits uint_64 v = InRange int_64 v
Fits float_16 v = ⊥
Fits float_32 v = ⊥
Fits float_64 v = ⊥
Fits t v = InRange t v

pub length-prepare_number : (n p : ℕ) → length (prepare_number n p) ≡ n
unfolding prepare_number
length-prepare_number zero p = refl
length-prepare_number (suc n) p = ap suc (length-prepare_number n (p / 256))

pub pattern_of-prepare_number : (n p : ℕ) → p < 256 ^ n → pattern_of (prepare_number n p) ≡ p
unfolding prepare_number pattern_of
pattern_of-prepare_number zero p h = omega arith
pattern_of-prepare_number (suc n) p h =
    omega (arith, pattern_of-prepare_number n (p / 256) (omega (arith, pow-suc 256 n)))

module _ (fp : FloatConversion) where
  bits_of-lt : (t : NumericType) (v : ℤ) → Fits t v → bits_of fp t v < modulus t
  unfolding bits_of is_float
  bits_of-lt int_8 (pos n) h = omega arith
  bits_of-lt _ v h = ground arith

  value_of-bits_of : (t : NumericType) (v : ℤ) → Fits t v → value_of fp t (bits_of fp t v) ≡ v
  unfolding value_of bits_of narrow is_float
  value_of-bits_of int_8 (pos n) h = ground arith
  value_of-bits_of _ v h = ground arith

  -- The bytes of a value of a type.
  pub encoded : NumericType → ℤ → Bytes
  encoded t v = prepare_number (size_of t) (bits_of fp t v)

  pub prepare_number-encoded :
      (t : NumericType) (v : ℤ) → prepare_number (size_of t) (bits_of fp t v) ≡ encoded t v
  unfolding encoded
  prepare_number-encoded t v = refl

  pub length-encoded : (t : NumericType) (v : ℤ) → length (encoded t v) ≡ size_of t
  unfolding encoded
  length-encoded t v = length-prepare_number (size_of t) (bits_of fp t v)

  pub write_number-encoded :
      (t : NumericType) (v : ℤ) (flags : Flags)
      → type_with_flags flags ≡ some t
      → write_number fp v flags ≡ some (encoded t v)
  unfolding write_number encoded
  write_number-encoded t v flags h = rw (h, write_number)

  -- The number in front of the reader is read, if it is of the type that the flags name.
  pub read_number-encoded :
      (t : NumericType) (v : ℤ) (flags : Flags) (rest : Bytes)
      → type_with_flags flags ≡ some t
      → Fits t v
      → read_number fp flags (encoded t v ++ rest) ≡ number v (size_of t)
  unfolding read_number encoded
  read_number-encoded t v flags rest h fits =
      let bytes = prepare_number (size_of t) (bits_of fp t v) in
      let long = length-prepare_number (size_of t) (bits_of fp t v) in
      let taken =
        ap (λ (n : ℕ). take n (bytes ++ rest)) (sym long) ∙ take-length_append bytes rest in
      let back = pattern_of-prepare_number (size_of t) (bits_of fp t v) (bits_of-lt t v fits) in
      ground (arith, h, long, length-append bytes rest, taken, back, value_of-bits_of t v fits)

  -- Fewer bytes than the type has are no number.
  pub read_number_short :
      (t : NumericType) (flags : Flags) (bytes : Bytes)
      → type_with_flags flags ≡ some t
      → length bytes < size_of t
      → read_number fp flags bytes ≡ incomplete
  unfolding read_number
  read_number_short t flags bytes h short = ground (arith, h)

  size_of_pos : (t : NumericType) → 1 ≤ size_of t
  size_of_pos int_8 = omega arith
  size_of_pos _ = omega arith

  module _ (size_type : NumericType) where
    pub read_int-Stands :
        (i : Input) (t : NumericType) (v : ℤ) (flags : Flags) (rest : Bytes)
        → type_with_flags flags ≡ some t
        → Fits t v
        → Stands i (encoded t v ++ rest)
        → Input.read_int fp size_type flags i ≡ ok v (advance (size_of t) i)
    unfolding Input.read_int
    read_int-Stands i t v flags rest h fits at =
        ground (arith, at, read_number-encoded t v flags rest h fits)

    -- Under plain flags a size is one number of the size type.
    pub read_size-Stands :
        (i : Input) (v : ℤ) (flags : Flags) (rest : Bytes)
        → IsPlain flags
        → Fits size_type v
        → Stands i (encoded size_type v ++ rest)
        → Input.read_size fp size_type flags i ≡ ok v (advance (size_of size_type) i)
    unfolding Input.read_size
    read_size-Stands i v flags rest plain fits at = ground (
      arith,
      plain-has_flag flags plain,
      read_int-Stands i size_type v (bit_or flags (type_to_flags size_type)) rest
          (type_with_flags-type_to_flags size_type flags plain) fits at,
    )

    pub write_size-encoded :
        (v : ℤ) (flags : Flags) (o : Bytes)
        → IsPlain flags
        → Output.write_size fp size_type flags v o ≡ ok tt (o ++ encoded size_type v)
    unfolding Output.write_size
    write_size-encoded v flags o plain = ground (
      arith,
      plain-has_flag flags plain,
      write_number-encoded size_type v (bit_or flags (type_to_flags size_type))
          (type_with_flags-type_to_flags size_type flags plain),
    )

    pub read_string-Stands :
        (i : Input) (value : Bytes) (flags : Flags) (rest : Bytes)
        → IsPlain flags
        → Fits size_type (pos (length value))
        → i.position + size_of size_type + length value < 2 ^ 31
        → Stands i (encoded size_type (pos (length value)) ++ (value ++ rest))
        → Input.read_string fp size_type flags i
          ≡ ok value (advance (size_of size_type + length value) i)
    unfolding Input.read_string
    read_string-Stands i value flags rest plain fits small at =
        let len = encoded size_type (pos (length value)) in
        let behind : Stands (advance (size_of size_type) i) (value ++ rest) =
          ap (λ (n : ℕ). remaining (advance n i)) (sym (length-encoded size_type _))
          ∙ Stands-advance i len (value ++ rest) at in
        let taken = ap (take (length value)) behind ∙ take-length_append value rest in
        >>=-ok (Input.read_size fp size_type flags) _
          (read_size-Stands i (pos (length value)) flags (value ++ rest) plain fits at)
        ∙ ground (
          arith,
          taken,
          small,
          size_of_pos size_type,
          length-encoded size_type (pos (length value)),
          length-append len (value ++ rest),
          length-append value rest,
          length-drop i.position i.contents,
          ap (λ (l : Bytes). length l) at,
        )
