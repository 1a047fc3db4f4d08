-- ===== src/Core/Flags.antt =====
-- bomba_core.hpp, namespace SerialisationFlags: bit flags, with a numeric type in bits 4 to 8.
pub mod Types
use Prim.Native.Nat.{bit_and}
use bomba.Base.{ℕ, Bool, not, Option, none, some, ◌==◌, if◌then◌else◌}

abbrev pub Flags : Type 0
Flags = ℕ

abbrev pub no_flags : Flags
no_flags = 0

abbrev pub object_layout_known : Flags
object_layout_known = 0x1

abbrev pub omit_false : Flags
omit_false = 0x4

abbrev pub empty_is_null : Flags
empty_is_null = 0x8

abbrev pub determined_numeric_type : Flags
determined_numeric_type = 0x1f0

-- The arithmetic types of `typeToFlags`.
pub data NumericType : Type 0 where
  int_8 uint_8 int_16 uint_16 int_32 uint_32 int_64 uint_64 float_16 float_32 float_64 : NumericType

unfoldable pub type_to_flags : NumericType → Flags
type_to_flags int_8 = 0x100
type_to_flags uint_8 = 0x110
type_to_flags int_16 = 0x120
type_to_flags uint_16 = 0x130
type_to_flags int_32 = 0x140
type_to_flags uint_32 = 0x150
type_to_flags int_64 = 0x160
type_to_flags uint_64 = 0x170
type_to_flags float_16 = 0x180
type_to_flags float_32 = 0x190
type_to_flags float_64 = 0x1a0

-- The type that `typeWithFlags` calls its functor with; `none` is its `logic_error`.
unfoldable pub type_of_cleaned : ℕ → Option NumericType
type_of_cleaned cleaned =
    if cleaned == 0x100
    then some int_8
    else if cleaned == 0x110
    then some uint_8
    else if cleaned == 0x120
    then some int_16
    else if cleaned == 0x130
    then some uint_16
    else if cleaned == 0x140
    then some int_32
    else if cleaned == 0x150
    then some uint_32
    else if cleaned == 0x160
    then some int_64
    else if cleaned == 0x170
    then some uint_64
    else if cleaned == 0x180
    then some float_16
    else if cleaned == 0x190
    then some float_32
    else if cleaned == 0x1a0
    then some float_64
    else none

unfoldable pub type_with_flags : Flags → Option NumericType
unfolding type_of_cleaned
type_with_flags flags =
    let cleaned = bit_and flags determined_numeric_type in
    type_of_cleaned (if cleaned == 0 then 0x140 else cleaned)

abbrev pub has_flag : Flags → Flags → Bool
has_flag flags flag = not (bit_and flags flag == 0)
