-- ===== src/Binary/Output.antt =====
-- bomba_binary_protocol.hpp, BinaryFormat::Output, over any size type. The state is what the string
-- that it writes to holds. A double is not modelled.
use Prim.Native.Nat.{bit_or}
use bomba.Base.{ℕ, Bool, false, ◌++◌, Bytes, length, ◌==◌, if◌then◌else◌, none, some}
use bomba.Base.Int.{ℤ, pos, negsuc}
use bomba.Base.Outcome.{M, ok, raise, logic_error, ◌>>◌, return, throw}
use bomba.Binary.Number.{FloatConversion, write_number}
use bomba.Core.Flags.{
  Flags, NumericType, int_8, determined_numeric_type, object_layout_known, type_to_flags, has_flag,
}

abbrev pub Output : Type 0
Output = Bytes

module _ (fp : FloatConversion) (size_type : NumericType) where
  unfoldable pub write_int : Flags → ℤ → M Output (Unit {0})
  write_int flags value o = elim (write_number fp value flags) [
    | some bytes ↦ ok tt (o ++ bytes)
    | none ↦ raise logic_error o
  ]

  -- Under flags that name a type the size is written twice.
  unfoldable pub write_size : Flags → ℤ → M Output (Unit {0})
  unfolding write_int
  write_size flags size = do
    (if has_flag flags determined_numeric_type then write_int flags size else return tt)
    write_int (bit_or flags (type_to_flags size_type)) size

  unfoldable pub write_string : Flags → Bytes → M Output (Unit {0})
  unfolding write_size
  write_string flags value = do write_size flags (pos (length value)); λ o. ok tt (o ++ value)

  unfoldable pub write_bool : Flags → Bool → M Output (Unit {0})
  unfolding write_int
  write_bool flags value =
      write_int (bit_or flags (type_to_flags int_8)) (if value then pos 1 else pos 0)

  unfoldable pub write_null : Flags → M Output (Unit {0})
  write_null flags = return tt

  -- `UNKNOWN_SIZE` is -1.
  is_unknown : ℤ → Bool
  is_unknown (pos n) = false
  is_unknown (negsuc n) = n == 0

  unfoldable pub start_writing_array : Flags → ℤ → M Output (Unit {0})
  unfolding write_size is_unknown
  start_writing_array flags size =
      if is_unknown size then throw logic_error else write_size flags size

  unfoldable pub introduce_array_element : Flags → ℕ → M Output (Unit {0})
  introduce_array_element flags index = return tt

  unfoldable pub end_writing_array : Flags → M Output (Unit {0})
  end_writing_array flags = return tt

  unfoldable pub start_writing_object : Flags → ℤ → M Output (Unit {0})
  unfolding write_size is_unknown
  start_writing_object flags size =
      if has_flag flags object_layout_known
      then return tt
      else if is_unknown size
      then throw logic_error
      else write_size flags size

  unfoldable pub introduce_object_member : Flags → Bytes → ℕ → M Output (Unit {0})
  unfolding write_string
  introduce_object_member flags name index =
      if has_flag flags object_layout_known then return tt else write_string flags name

  unfoldable pub end_writing_object : Flags → M Output (Unit {0})
  end_writing_object flags = return tt

  unfoldable pub write_optional : Flags → Bool → M Output (Unit {0}) → M Output (Unit {0})
  unfolding write_bool
  write_optional flags present write_value = do
    write_bool flags present
    if present then write_value else return tt
