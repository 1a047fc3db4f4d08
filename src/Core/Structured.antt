-- ===== src/Core/Structured.antt =====
-- bomba_core.hpp, IStructuredOutput and IStructuredInput: what a data format offers to the code that
-- writes and reads values. A format is a record of operations on the state of its writer or reader.
-- Floating-point members are left out.
use bomba.Base.{ℕ, Bool, Bytes}
use bomba.Base.Int.{ℤ}
use bomba.Base.Outcome.{M}
use bomba.Core.Flags.{Flags}

pub data MemberType : Type 0 where
  type_integer type_float type_string type_boolean type_null : MemberType
  type_array type_object type_invalid : MemberType

pub record StructuredOutput (S : Type 0) : Type 0 where
  pub write_int : Flags → ℤ → M S (Unit {0})
  pub write_string : Flags → Bytes → M S (Unit {0})
  pub write_bool : Flags → Bool → M S (Unit {0})
  pub write_null : Flags → M S (Unit {0})
  pub start_writing_array : Flags → ℤ → M S (Unit {0})
  pub introduce_array_element : Flags → ℕ → M S (Unit {0})
  pub end_writing_array : Flags → M S (Unit {0})
  pub start_writing_object : Flags → ℤ → M S (Unit {0})
  pub introduce_object_member : Flags → Bytes → ℕ → M S (Unit {0})
  pub end_writing_object : Flags → M S (Unit {0})
  pub write_optional : Flags → Bool → M S (Unit {0}) → M S (Unit {0})

-- The object reader takes fuel: its callback may move the reader back.
pub record StructuredInput (S : Type 0) : Type 0 where
  pub identify_type : Flags → M S MemberType
  pub read_int : Flags → M S ℤ
  pub read_string : Flags → M S Bytes
  pub read_bool : Flags → M S Bool
  pub read_null : Flags → M S (Unit {0})
  pub start_reading_array : Flags → M S (Unit {0})
  pub next_array_element : Flags → M S Bool
  pub end_reading_array : Flags → M S (Unit {0})
  pub skip_object_element : Flags → M S (Unit {0})
