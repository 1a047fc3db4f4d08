-- ===== src/Binary/RoundTrip/Whole.antt =====
-- The round trips of integers and strings from the writer's bytes, and what is cut short.
use Prim.Native.Nat.{bit_or}
use bomba.Base.{
  ℕ, ◌+◌, ◌^◌, ◌≤◌, ◌<◌, List, [], ◌++◌, Bytes, length, length-append, length-drop, drop,
  drop-length_append, split_front, Bool-cases, inl, inr, ltb, ltb→lt, some, ◌≡◌, ap, ◌∙◌, arith,
  append_assoc,
}
use bomba.Base.Int.{ℤ, pos}
use bomba.Base.Outcome.{ok, raise, parse_error, >>=-ok}
use bomba.Binary.Input
use bomba.Binary.Input.{Input, remaining, advance}
use bomba.Binary.Number.{FloatConversion, read_number}
use bomba.Binary.Output
use bomba.Binary.Output.{Output}
use bomba.Binary.RoundTrip.{
  Stands, Fits, encoded, length-encoded, write_number-encoded, read_number_short, read_int-Stands,
  read_size-Stands, write_size-encoded, read_string-Stands,
}
use bomba.Core.Flags.{Flags, NumericType, type_with_flags, type_to_flags}
use bomba.Core.Flags.Types.{IsPlain, type_with_flags-type_to_flags, plain-has_flag}
use bomba.Core.Integer.{size_of}

module _ (fp : FloatConversion) (size_type : NumericType) where
  -- An integer that fits the type that the flags name, written behind any bytes, is read back from
  -- where it begins, whatever follows and whatever the counters of the reader are, and the reader is
  -- left behind it with these counters.
  pub read_int-write_int :
      (t : NumericType) (v : ℤ) (flags : Flags) (o : Output) (rest : Bytes) (sizes : List ℤ) (d : ℤ)
      → type_with_flags flags ≡ some t
      → Fits t v
      → (p : Output) × (Output.write_int fp size_type flags v o ≡ ok tt p)
        × (Input.read_int fp size_type flags
              (record { contents = p ++ rest; position = length o; sizes = sizes; depth = d })
            ≡ ok v (record { contents = p ++ rest; position = length p; sizes = sizes; depth = d }))
  unfolding Output.write_int
  read_int-write_int t v flags o rest sizes d h fits =
      let text = encoded fp t v in
      let i : Input = record {
        contents = (o ++ text) ++ rest;
        position = length o;
        sizes = sizes;
        depth = d;
      } in
      let at : Stands i (text ++ rest) =
        ap (drop (length o)) (append_assoc o text rest) ∙ drop-length_append o (text ++ rest) in
      (
        o ++ text,
        ground (arith, write_number-encoded fp t v flags h),
        read_int-Stands fp size_type i t v flags rest h fits at
            ∙ ap (λ (m : ℕ). ok v (record i { position = m }))
                (omega (arith, length-append o text, length-encoded fp t v)),
      )

  -- A string whose length fits the size type, written under plain flags behind any bytes so that it
  -- ends at a position that an int can say, is read back from where it begins, whatever follows and
  -- whatever the counters of the reader are, and the reader is left behind it with these counters.
  pub read_string-write_string :
      (value : Bytes) (flags : Flags) (o : Output) (rest : Bytes) (sizes : List ℤ) (d : ℤ)
      → IsPlain flags
      → Fits size_type (pos (length value))
      → length o + size_of size_type + length value < 2 ^ 31
      → (p : Output) × (Output.write_string fp size_type flags value o ≡ ok tt p)
        × (Input.read_string fp size_type flags
              (record { contents = p ++ rest; position = length o; sizes = sizes; depth = d })
            ≡ ok value
                (record { contents = p ++ rest; position = length p; sizes = sizes; depth = d }))
  unfolding Output.write_string
  read_string-write_string value flags o rest sizes d plain fits small =
      let size = encoded fp size_type (pos (length value)) in
      let i : Input = record {
        contents = ((o ++ size) ++ value) ++ rest;
        position = length o;
        sizes = sizes;
        depth = d;
      } in
      let at : Stands i (size ++ (value ++ rest)) =
        ap (drop (length o))
          (append_assoc (o ++ size) value rest ∙ append_assoc o size (value ++ rest))
        ∙ drop-length_append o (size ++ (value ++ rest)) in
      (
        (o ++ size) ++ value,
        >>=-ok (Output.write_size fp size_type flags (pos (length value))) _
            (write_size-encoded fp size_type (pos (length value)) flags o plain),
        read_string-Stands fp size_type i value flags rest plain fits (omega (arith, small)) at
            ∙ ap (λ (m : ℕ). ok value (record i { position = m }))
                (omega (
                  arith,
                  length-append (o ++ size) value,
                  length-append o size,
                  length-encoded fp size_type (pos (length value)),
                )),
      )

  read_size_short :
      (i : Input) (flags : Flags) (front : Bytes)
      → IsPlain flags
      → length front < size_of size_type
      → Stands i front
      → Input.read_size fp size_type flags i ≡ raise parse_error i
  unfolding Input.read_size
  read_size_short i flags front plain short at =
      let wide = bit_or flags (type_to_flags size_type) in
      let typed = type_with_flags-type_to_flags size_type flags plain in
      let none_read =
        ap (read_number fp wide) at ∙ read_number_short fp size_type wide front typed short in
      ground (arith, plain-has_flag flags plain, none_read)

  -- Where the size is there and the string is cut short.
  body_short :
      (i : Input) (value front : Bytes) (flags : Flags)
      → IsPlain flags
      → Fits size_type (pos (length value))
      → length front < length value
      → Stands i (encoded fp size_type (pos (length value)) ++ front)
      → Input.read_string fp size_type flags i ≡ raise parse_error (advance (size_of size_type) i)
  unfolding Input.read_string
  body_short i value front flags plain fits short at =
      let size = encoded fp size_type (pos (length value)) in
      >>=-ok (Input.read_size fp size_type flags) _
        (read_size-Stands fp size_type i (pos (length value)) flags front plain fits at)
      ∙ ground (
        arith,
        length-append size front,
        length-encoded fp size_type (pos (length value)),
        length-drop i.position i.contents,
        ap (λ (l : Bytes). length l) at,
      )

  -- Of the bytes of a string that the writer appends, under plain flags and of a length that fits the
  -- size type, every proper prefix is refused with a parse error.
  pub read_string_truncated :
      (i : Input) (value front back : Bytes) (flags : Flags)
      → IsPlain flags
      → Fits size_type (pos (length value))
      → Output.write_string fp size_type flags value [] ≡ ok tt (front ++ back)
      → 1 ≤ length back
      → remaining i ≡ front
      → (j : Input) × (Input.read_string fp size_type flags i ≡ raise parse_error j)
  unfolding Output.write_string Input.read_string
  read_string_truncated i value front back flags plain fits written cut at =
      let size = encoded fp size_type (pos (length value)) in
      let text : front ++ back ≡ size ++ value = cc (
        >>=-ok (Output.write_size fp size_type flags (pos (length value)))
          (λ (_ : Unit {0}) (o : Output). ok tt (o ++ value))
          (write_size-encoded fp size_type (pos (length value)) flags [] plain)) in
      let wide = length-encoded fp size_type (pos (length value)) in
      elim (Bool-cases (ltb (length front) (size_of size_type))) [
        | inl short ↦ (
          i,
          ground (
            arith,
            read_size_short i flags front plain (ltb→lt (length front) (size_of size_type) short)
                at,
          ),
        )
        | inr long ↦
            let split = split_front size value front back text (ground arith) in
            let behind = drop (length size) front in
            (
              advance (size_of size_type) i,
              body_short i value behind flags plain fits
                  (omega (
                    arith,
                    length-append size behind,
                    length-append size value,
                    length-append front back,
                    ap (λ (l : Bytes). length l) text,
                    ap (λ (l : Bytes). length l) split,
                  ))
                  (at ∙ split),
            )
      ]
