-- ===== src/Core/Serialiser.antt =====
-- bomba_core.hpp, TypedSerialiser: how the values of each type are written to any format, and read
-- over a value that is there already.
use Prim.Native.Nat.{bit_or}
use bomba.Base.{
  ℕ, zero, suc, Bool, true, false, List, [], ◌∷◌, ◌++◌, Bytes, length, take, take_all, ◌<◌, ◌^◌,
  ◌≡◌, ap, ◌∙◌, arith, if◌then◌else◌, Option, none, some,
}
use bomba.Base.Int.{ℤ, pos, negsuc}
use bomba.Base.Outcome.{M, diverges, ◌>>=◌, ◌>>◌, return}
use bomba.Core.Flags.{Flags, NumericType, determined_numeric_type, type_to_flags, has_flag, int_32}
use bomba.Core.Integer.{narrow, narrow-InRange}
use bomba.Core.Structured.{StructuredOutput, StructuredInput}

-- `deserialise_member` is given the old value. It takes fuel for its loops.
pub record TypedSerialiser (O I : Type 0) (T : Type 0) : Type 0 where
  pub serialise_member : T → Flags → M O (Unit {0})
  pub deserialise_member : ℕ → T → Flags → M I T

abbrev pub head_or {ℓ} : {T : Type ℓ} → T → List T → T
head_or default [] = default
head_or default (x ∷ xs) = x

abbrev pub tail {ℓ} : {T : Type ℓ} → List T → List T
tail [] = []
tail (x ∷ xs) = xs

module _ {O I : Type 0} (out : StructuredOutput O) (inp : StructuredInput I) where
  -- `TypedSerialiser<Integer>`: the flags name the type, unless they name one already.
  abbrev typed_flags : NumericType → Flags → Flags
  typed_flags t flags =
      if has_flag flags determined_numeric_type then flags else bit_or flags (type_to_flags t)

  abbrev pub integer : NumericType → TypedSerialiser O I ℤ
  integer t = record {
    serialise_member = λ value flags. out.write_int (typed_flags t flags) value;
    deserialise_member = λ fuel value flags. do
      read ← inp.read_int (typed_flags t flags)
      return (narrow t read);
  }

  abbrev pub boolean : TypedSerialiser O I Bool
  boolean = record {
    serialise_member = λ value flags. out.write_bool flags value;
    deserialise_member = λ fuel value flags. inp.read_bool flags;
  }

  abbrev pub string : TypedSerialiser O I Bytes
  string = record {
    serialise_member = λ value flags. out.write_string flags value;
    deserialise_member = λ fuel value flags. inp.read_string flags;
  }

  module _ {T : Type 0} (member : TypedSerialiser O I T) where
    unfoldable pub write_elements : ℕ → List T → Flags → M O (Unit {0})
    write_elements index [] flags = return tt
    write_elements index (x ∷ xs) flags = do
      out.introduce_array_element flags index
      member.serialise_member x flags
      write_elements (suc index) xs flags

    -- The elements that the loop reaches, whose bound is `int(value.size())`.
    unfoldable pub reached : ℤ → List T → List T
    reached (pos n) value = take n value
    reached (negsuc n) value = []

    -- `TypedSerialiser<Vector>::serialiseMember`, and of `std::array` too. The size is made an int.
    unfoldable pub write_vector : List T → Flags → M O (Unit {0})
    unfolding write_elements reached
    write_vector value flags = do
      out.start_writing_array flags (narrow int_32 (pos (length value)))
      write_elements 0 (reached (narrow int_32 (pos (length value))) value) flags
      out.end_writing_array flags

    -- All elements of a vector whose size an int can say are written.
    pub write_vector_small :
        (value : List T) (flags : Flags) (o : O)
        → length value < 2 ^ 31
        → write_vector value flags o
          ≡ (out.start_writing_array flags (pos (length value))
                >> (write_elements 0 value flags >> out.end_writing_array flags))
              o
    unfolding write_vector reached
    write_vector_small value flags o small =
        let kept : narrow int_32 (pos (length value)) ≡ pos (length value) =
          narrow-InRange int_32 (pos (length value)) (omega (arith, small)) in
        ap
          (λ (n : ℤ).
            (out.start_writing_array flags n
                >> (write_elements 0 (reached n value) flags >> out.end_writing_array flags))
              o)
          kept
        ∙ ap
            (λ (l : List T).
              (out.start_writing_array flags (pos (length value))
                  >> (write_elements 0 l flags >> out.end_writing_array flags))
                o)
            (take_all value)

    -- The loop of `TypedSerialiser<Vector>::deserialiseMember`. The vector is `done`, which has
    -- `index` elements, followed by `left`; a default element is added when `left` is empty, and what
    -- is left at the end is cut off by `resize`.
    unfoldable pub vector_loop : T → ℕ → List T → List T → Flags → M I (List T)
    vector_loop default zero done left flags = λ _. diverges
    vector_loop default (suc fuel) done left flags = do
      more ← inp.next_array_element flags
      elim more [
        | true ↦ (do
          x ← member.deserialise_member fuel (head_or default left) flags
          vector_loop default fuel (done ++ (x ∷ [])) (tail left) flags)
        | false ↦ return done
      ]

    unfoldable pub read_vector : T → ℕ → List T → Flags → M I (List T)
    unfolding vector_loop
    read_vector default fuel value flags = do
      inp.start_reading_array flags
      read ← vector_loop default fuel [] value flags
      inp.end_reading_array flags
      return read

    -- The loop of `TypedSerialiser<std::array<T, size>>::deserialiseMember` over the elements from
    -- `i` on; those that the format does not hold keep their values.
    unfoldable pub array_loop : ℕ → List T → Flags → M I (List T)
    array_loop fuel [] flags = return []
    array_loop fuel (old ∷ left) flags = do
      more ← inp.next_array_element flags
      elim more [
        | true ↦ (do
          x ← member.deserialise_member fuel old flags
          rest ← array_loop fuel left flags
          return (x ∷ rest))
        | false ↦ return (old ∷ left)
      ]

    unfoldable pub read_array : ℕ → List T → Flags → M I (List T)
    unfolding array_loop
    read_array fuel value flags = do
      inp.start_reading_array flags
      read ← array_loop fuel value flags
      inp.end_reading_array flags
      return read

    abbrev pub vector : T → TypedSerialiser O I (List T)
    vector default = record {
      serialise_member = write_vector;
      deserialise_member = read_vector default;
    }

    abbrev pub array : TypedSerialiser O I (List T)
    array = record { serialise_member = write_vector; deserialise_member = read_array }

    -- `TypedSerialiser<Ptr>` of optionals and smart pointers.
    unfoldable pub write_optional_member : Option T → Flags → M O (Unit {0})
    write_optional_member none flags = out.write_optional flags false (return tt)
    write_optional_member (some value) flags =
        out.write_optional flags true (member.serialise_member value flags)
