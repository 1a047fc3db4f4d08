-- ===== src/Binary/Input.antt =====
-- bomba_binary_protocol.hpp, BinaryFormat::Input, over any size type and maximal depth. A double is
-- not modelled. An entry of `_sizes` beyond the array is undefined behaviour.
use Prim.Native.Nat.{bit_or}
use bomba.Base.{
  ℕ, zero, suc, ◌+◌, ◌^◌, Bool, true, false, not, List, Bytes, length, get_elem?, set, take, drop,
  ltb, leb, ◌==◌, if◌then◌else◌, Option, none, some,
}
use bomba.Base.Int.{ℤ, pos, negsuc, incr, decr}
use bomba.Base.Outcome.{
  M, ok, raise, undefined, diverges, parse_error, logic_error, ◌>>=◌, ◌>>◌, return, throw,
}
use bomba.Binary.Number.{FloatConversion, read_number, number, incomplete, weird_type}
use bomba.Core.Flags.{
  Flags, NumericType, int_32, determined_numeric_type, object_layout_known, type_to_flags, has_flag,
}
use bomba.Core.Integer.{narrow}

pub record Input : Type 0 where
  pub contents : Bytes
  pub position : ℕ
  pub sizes : List ℤ
  pub depth : ℤ

abbrev pub remaining : Input → Bytes
remaining i = drop i.position i.contents

abbrev pub advance : ℕ → Input → Input
advance n i = record i { position = i.position + n }

-- `parseError` throws, so `good` keeps its value.
abbrev pub incomplete_request {κ} : {A : Type κ} → M Input A
incomplete_request = throw parse_error

-- `_sizes[_depth]`
size_at : ℤ → List ℤ → Option ℤ
size_at (pos n) sizes = get_elem? sizes n
size_at (negsuc n) sizes = none

put_size : ℤ → ℤ → List ℤ → List ℤ
put_size (pos n) size sizes = set sizes n size
put_size (negsuc n) size sizes = sizes

is_positive : ℤ → Bool
is_positive (pos n) = not (n == 0)
is_positive (negsuc n) = false

module _ (fp : FloatConversion) (size_type : NumericType) where
  unfoldable pub read_int : Flags → M Input ℤ
  read_int flags i = elim (read_number fp flags (remaining i)) [
    | number value bytes_read ↦ ok value (advance bytes_read i)
    | incomplete ↦ incomplete_request i
    | weird_type ↦ raise logic_error i
  ]

  -- Under flags that name a type the size is read twice, and the second counts.
  unfoldable pub read_size : Flags → M Input ℤ
  unfolding read_int
  read_size flags =
      if has_flag flags determined_numeric_type
      then (do ignored ← read_int flags; read_int (bit_or flags (type_to_flags size_type)))
      else read_int (bit_or flags (type_to_flags size_type))

  -- The end of the string is compared as an unsigned number, so it is too large if it is negative;
  -- if only the length is negative, the string would end before it begins. The position is an int: behind
  -- a string that ends at 2 ^ 31 or further on it would wrap, and the next read would be out of bounds.
  string_of_length : ℤ → M Input Bytes
  string_of_length (pos n) i =
      if ltb (length i.contents) (i.position + n)
      then incomplete_request i
      else if leb (2 ^ 31) (i.position + n)
      then undefined
      else ok (take n (remaining i)) (advance n i)
  string_of_length (negsuc n) i = if leb (suc n) i.position then undefined else incomplete_request i

  unfoldable pub read_string : Flags → M Input Bytes
  unfolding read_size string_of_length
  read_string flags = do len ← read_size flags; string_of_length len

  unfoldable pub read_bool : Flags → M Input Bool
  read_bool flags i = elim (get_elem? i.contents i.position) [
    | some b ↦ ok (not (b == 0)) (advance 1 i)
    | none ↦ incomplete_request i
  ]

  unfoldable pub read_null : Flags → M Input (Unit {0})
  read_null flags = return tt

  module _ (max_depth : ℕ) where
    at_max : ℤ → Bool
    at_max (pos n) = n == max_depth
    at_max (negsuc n) = false

    unfoldable pub start_reading_array : Flags → M Input (Unit {0})
    unfolding read_size at_max size_at put_size
    start_reading_array flags = do
      λ i. ok tt (record i { depth = incr i.depth })
      λ i.
          if at_max i.depth
          then raise logic_error i
          else (do
            size ← read_size flags
            λ j. elim (size_at j.depth j.sizes) [
              | some _ ↦ ok tt (record j { sizes = put_size j.depth (narrow int_32 size) j.sizes })
              | none ↦ undefined
            ])
              i

  unfoldable pub next_array_element : Flags → M Input Bool
  unfolding size_at put_size is_positive
  next_array_element flags i = elim (size_at i.depth i.sizes) [
    | some size ↦
        ok (is_positive (decr size)) (record i { sizes = put_size i.depth (decr size) i.sizes })
    | none ↦ undefined
  ]

  unfoldable pub end_reading_array : Flags → M Input (Unit {0})
  unfolding size_at put_size
  end_reading_array flags i = elim (size_at i.depth i.sizes) [
    | some _ ↦
        ok tt (record i { sizes = put_size i.depth (negsuc 0) i.sizes; depth = decr i.depth })
    | none ↦ undefined
  ]

  unfoldable pub skip_object_element : Flags → M Input (Unit {0})
  skip_object_element flags = throw logic_error

  unfoldable pub store_position : M Input ℕ
  store_position i = ok i.position i

  unfoldable pub restore_position : ℕ → M Input (Unit {0})
  restore_position location i = ok tt (record i { position = location })

  -- A call on the reader, made beside what a callback captures.
  abbrev pub lift : {X A : Type 0} → M Input A → M (Input × X) A
  lift m (i, x) = elim (m i) [
    | ok a j ↦ ok a (j, x)
    | raise e j ↦ raise e (j, x)
    | undefined ↦ undefined
    | diverges ↦ diverges
  ]

  unfoldable pub read_optional :
      {X : Type 0} → Flags → M (Input × X) (Unit {0}) → M (Input × X) Bool
  unfolding read_bool
  read_optional flags read_value = do
    present ← lift (read_bool flags)
    if present then (do read_value; return true) else return false

  module _ {X : Type 0} (on_each : Option Bytes → ℕ → M (Input × X) Bool) where
    -- An object of a known layout ends when the callback says so.
    unfoldable pub layout_loop : ℕ → ℕ → M (Input × X) (Unit {0})
    layout_loop zero index = λ _. diverges
    layout_loop (suc fuel) index = do
      more ← on_each none index
      elim more [ true ↦ layout_loop fuel (suc index) | false ↦ return tt ]

    -- The members that are left of an object with names.
    unfoldable pub named_loop : Flags → ℕ → ℕ → M (Input × X) (Unit {0})
    named_loop flags zero index = return tt
    named_loop flags (suc left) index = do
      name ← lift (read_string flags)
      more ← on_each (some name) index
      elim more [ true ↦ named_loop flags left (suc index) | false ↦ return tt ]

    unfoldable pub read_object : ℕ → Flags → M (Input × X) (Unit {0})
    unfolding layout_loop named_loop
    read_object fuel flags = if has_flag flags object_layout_known then layout_loop fuel 0 else (do
      size ← lift (read_size flags)
      elim size [ pos n ↦ named_loop flags n 0 | negsuc _ ↦ return tt ])
