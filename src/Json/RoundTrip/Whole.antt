-- ===== src/Json/RoundTrip/Whole.antt =====
-- The round trips of strings and of vectors, from the writer's text to the reader's value.
use bomba.Base.{
  ℕ, ◌^◌, ◌≤◌, ◌<◌, Bool, List, [], ◌∷◌, ◌++◌, Bytes, length, length-append, drop,
  drop-length_append, ◌≡◌, refl, ap, ◌∙◌, arith, append_assoc, All, true, false,
}
use bomba.Base.Outcome.{ok}
use bomba.Core.Flags.{Flags}
use bomba.Core.Serialiser.{TypedSerialiser, vector}
use bomba.Json.Format.{json_output, json_input}
use bomba.Json.Input.{Input, read_string}
use bomba.Json.Output.{Output, escaped, write_string}
use bomba.Json.RoundTrip.{kept, read_string-Stands}
use bomba.Json.RoundTrip.Members.{Carries-round_trip}
use bomba.Json.RoundTrip.Vector.{Carries, is_delimiter, total_fuel, vector-Carries, Carries-fuel}

-- Whatever was written before and whatever follows, a string that the JSON writer appended is read
-- from where it begins as that string without its newlines, and the reader is left behind its end.
pub string_round_trip :
    (value : Bytes) (o : Output) (rest : Bytes) (good : Bool)
    → (p : Output) × (write_string value o ≡ ok tt p)
      × (read_string
            (record { contents = p.contents ++ rest; position = length o.contents; good = good })
          ≡ ok
              (kept value)
              (record { contents = p.contents ++ rest; position = length p.contents; good = good }))
unfolding write_string
string_round_trip value o rest good =
    let text : Bytes = b'"' ∷ (escaped value ++ (b'"' ∷ [])) in
    let i : Input = record {
      contents = (o.contents ++ text) ++ rest;
      position = length o.contents;
      good = good;
    } in
    let at =
      ap (drop (length o.contents)) (append_assoc o.contents text rest)
      ∙ drop-length_append o.contents (text ++ rest)
      ∙ ap (λ (l : Bytes). b'"' ∷ l) (append_assoc (escaped value) (b'"' ∷ []) rest) in
    (
      record o { contents = o.contents ++ text },
      refl,
      read_string-Stands i value rest at
          ∙ ap (λ (m : ℕ). ok (kept value) (record i { position = m }))
              (omega
                (arith, length-append o.contents text, length-append (escaped value) (b'"' ∷ []))),
    )

-- If the JSON writer and reader carry each element of a vector of fewer than 2^31 elements over, they
-- carry the vector over: written where no line break is to be skipped, at any depth behind any text, with a comma or a newline behind it, it is read back over
-- whatever vector was there, with fuel above a bound that depends on the elements alone.
pub vector_round_trip :
    {T : Type 0} (s : TypedSerialiser Output Input T) (default : T) (xs : List T)
    (carried : All (Carries s) xs) (o : Output) (old : List T) (flags : Flags) (k c : ℕ)
    (rest : Bytes) (good : Bool)
    → length xs < 2 ^ 31
    → o.skip_newline ≡ false
    → is_delimiter c ≡ true
    → total_fuel s xs carried ≤ k
    → (p : Output) × ((vector json_output json_input s default).serialise_member xs flags o
        ≡ ok tt p)
      × ((vector json_output json_input s default).deserialise_member k old flags (record {
        contents = p.contents ++ (c ∷ rest);
        position = length o.contents;
        good = good;
      })
          ≡ ok xs (record {
            contents = p.contents ++ (c ∷ rest);
            position = length p.contents;
            good = good;
          }))
vector_round_trip s default xs carried o old flags k c rest good small n delimits enough =
    Carries-round_trip (vector json_output json_input s default) xs
      (vector-Carries s default xs small carried) o old flags k c rest good n delimits
      (Carries-fuel s default xs small carried k enough)
