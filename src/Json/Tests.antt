-- ===== src/Json/Tests.antt =====
-- The JSON theorems at concrete inputs, and runs of the reader and the writer.
use bomba.Base.{
  ◌-◌, ltb, if◌then◌else◌, ◌^◌, true, false, List, [], ◌∷◌, ◌++◌, Bytes, length, All, ◌≡◌, refl,
  arith,
}
use bomba.Base.Int.{ℤ, pos, negsuc, neg_part}
use bomba.Base.Outcome.{ok, raise, undefined, parse_error}
use bomba.Base.Charconv.{to_chars, from_chars}
use bomba.Base.Text.{codes}
use bomba.Core.Flags.{no_flags, int_64}
use bomba.Core.Integer.{narrow}
use bomba.Core.Serialiser.{integer, vector, write_vector}
use bomba.Json.Format.{json_output, json_input}
use bomba.Json.Input.{Input, read_int, read_string}
use bomba.Json.Output.{
  Output, write_int, write_string, start_writing_array, introduce_array_element, end_writing_array,
  new_line,
}
use bomba.Json.RoundTrip.{kept}
use bomba.Json.RoundTrip.Members.{write_int_bounds, integer-Carries}
use bomba.Json.RoundTrip.Vector.{Carries, is_delimiter, total_fuel, vector-Carries}
use bomba.Json.RoundTrip.Whole.{string_round_trip, vector_round_trip}

abbrev empty_output : Output
empty_output = record { contents = []; depth = pos 0; skip_newline = false }

abbrev reading : Bytes → Input
reading text = record { contents = text; position = 0; good = true }

-- A newline is lost on the way.
newline_lost :
    read_string (reading (codes "\"a\\\nb\""))
    ≡ ok (codes "ab") (record { contents = codes "\"a\\\nb\""; position = 6; good = true })
unfolding read_string
newline_lost = refl

-- An integer that ends the text is refused.
read_int_at_end :
    read_int (reading (codes "42"))
    ≡ raise parse_error (record { contents = codes "42"; position = 2; good = false })
unfolding read_int from_chars
read_int_at_end = refl

abbrev rows : List (List ℤ)
rows = (pos 1 ∷ negsuc 4 ∷ []) ∷ [] ∷ []

abbrev rows_carried :
    All
      (Carries (vector json_output json_input (integer json_output json_input int_64) (pos 0)))
      rows
rows_carried = (
  vector-Carries (integer json_output json_input int_64) (pos 0) (pos 1 ∷ negsuc 4 ∷ [])
      (omega arith)
      (integer-Carries (pos 1) (omega arith), (integer-Carries (negsuc 4) (omega arith), tt)),
  (vector-Carries (integer json_output json_input int_64) (pos 0) [] (omega arith) tt, tt),
)

rows_text :
    (vector json_output json_input
        (vector json_output json_input (integer json_output json_input int_64) (pos 0))
        []).serialise_member
      rows no_flags empty_output
    ≡ ok tt (record {
      contents = codes "[\n\t[\n\t\t1,\n\t\t-5\n\t],\n\t[]\n]";
      depth = pos 0;
      skip_newline = false;
    })
unfolding write_vector narrow write_int start_writing_array introduce_array_element
    end_writing_array new_line to_chars
rows_text = refl

vector_round_trip_example :
    (p : Output) × ((vector json_output json_input
          (vector json_output json_input (integer json_output json_input int_64) (pos 0))
          []).serialise_member
        rows no_flags empty_output
      ≡ ok tt p)
    × ((vector json_output json_input
            (vector json_output json_input (integer json_output json_input int_64) (pos 0))
            []).deserialise_member
          (total_fuel
            (vector json_output json_input (integer json_output json_input int_64) (pos 0))
            rows
            rows_carried)
          ((pos 7 ∷ []) ∷ [])
          no_flags
          (record { contents = p.contents ++ (b',' ∷ codes "x"); position = 0; good = true })
        ≡ ok rows (record {
          contents = p.contents ++ (b',' ∷ codes "x");
          position = length p.contents;
          good = true;
        }))
vector_round_trip_example =
    vector_round_trip
      (vector json_output json_input (integer json_output json_input int_64) (pos 0)) [] rows
      rows_carried empty_output ((pos 7 ∷ []) ∷ []) no_flags
      (total_fuel (vector json_output json_input (integer json_output json_input int_64) (pos 0))
        rows rows_carried)
      b',' (codes "x") true (omega arith) refl (unfold is_delimiter in refl) (omega arith)

string_round_trip_example :
    (p : Output) × (write_string (codes "say \"hi\"\n") empty_output ≡ ok tt p)
    × (read_string (record { contents = p.contents ++ codes ": 1"; position = 0; good = true })
        ≡ ok (kept (codes "say \"hi\"\n")) (record {
          contents = p.contents ++ codes ": 1";
          position = length p.contents;
          good = true;
        }))
string_round_trip_example = string_round_trip (codes "say \"hi\"\n") empty_output (codes ": 1") true

-- INT64_MIN has twenty characters.
write_int_bounds_example : write_int (negsuc (2 ^ 63 - 1)) empty_output ≡ (
    if ltb (neg_part (negsuc (2 ^ 63 - 1))) (10 ^ 18)
    then ok tt (record empty_output { contents = to_chars (negsuc (2 ^ 63 - 1)) })
    else undefined)
write_int_bounds_example = write_int_bounds (negsuc (2 ^ 63 - 1)) empty_output (omega arith)
