-- ===== src/Binary/Tests.antt =====
-- The theorems on the binary format at concrete inputs, and runs.
use bomba.Base.{[], ◌∷◌, ◌++◌, length, ◌≡◌, refl, arith}
use bomba.Base.Int.{ℤ, pos, negsuc}
use bomba.Base.Outcome.{ok, raise, parse_error}
use bomba.Base.Text.{codes}
use bomba.Binary.Format.{binary_output, binary_input}
use bomba.Binary.Input
use bomba.Binary.Input.{Input, remaining}
use bomba.Binary.Number.{FloatConversion, write_number, prepare_number}
use bomba.Binary.Output
use bomba.Binary.Output.{Output}
use bomba.Binary.RoundTrip.Whole.{
  read_int-write_int, read_string-write_string, read_string_truncated,
}
use bomba.Core.Flags.{
  int_8, int_16, uint_16, no_flags, type_with_flags, type_to_flags, object_layout_known,
}
use bomba.Core.Serialiser.{TypedSerialiser, integer}

-- The patterns of the floating-point types do not matter below.
abbrev no_floats : FloatConversion
no_floats = record { pattern = λ t v. 0; integer_of = λ t n. pos 0 }

abbrev small_int : TypedSerialiser Output Input ℤ
small_int = integer (binary_output no_floats uint_16) (binary_input no_floats uint_16 3) int_8

read_int-write_int_example :
    (p : Output) × (Output.write_int no_floats uint_16 0x120 (negsuc 299) (codes "ab") ≡ ok tt p)
    × (Input.read_int no_floats uint_16 0x120 (record {
      contents = p ++ codes "c";
      position = 2;
      sizes = pos 4 ∷ pos 0 ∷ negsuc 0 ∷ [];
      depth = negsuc 0;
    })
        ≡ ok (negsuc 299) (record {
          contents = p ++ codes "c";
          position = length p;
          sizes = pos 4 ∷ pos 0 ∷ negsuc 0 ∷ [];
          depth = negsuc 0;
        }))
read_int-write_int_example =
    read_int-write_int no_floats uint_16 int_16 (negsuc 299) 0x120 (codes "ab") (codes "c")
      (pos 4 ∷ pos 0 ∷ negsuc 0 ∷ []) (negsuc 0) (unfold type_with_flags in refl) (omega arith)

read_string-write_string_example :
    (p : Output) × (Output.write_string no_floats uint_16 object_layout_known (codes "hello") []
      ≡ ok tt p)
    × (Input.read_string no_floats uint_16 object_layout_known (record {
      contents = p ++ codes "!";
      position = 0;
      sizes = pos 4 ∷ pos 0 ∷ negsuc 0 ∷ [];
      depth = negsuc 0;
    })
        ≡ ok (codes "hello") (record {
          contents = p ++ codes "!";
          position = length p;
          sizes = pos 4 ∷ pos 0 ∷ negsuc 0 ∷ [];
          depth = negsuc 0;
        }))
read_string-write_string_example =
    read_string-write_string no_floats uint_16 (codes "hello") object_layout_known [] (codes "!")
      (pos 4 ∷ pos 0 ∷ negsuc 0 ∷ []) (negsuc 0) (omega arith) (omega arith) (omega arith)

abbrev cut_short : Input
cut_short = record { contents = 5 ∷ 0 ∷ codes "hell"; position = 0; sizes = []; depth = negsuc 0 }

hello_bytes :
    Output.write_string no_floats uint_16 no_flags (codes "hello") []
    ≡ ok tt ((5 ∷ 0 ∷ codes "hell") ++ codes "o")
unfolding Output.write_string write_number type_with_flags type_to_flags prepare_number
hello_bytes = refl

read_string_truncated_example :
    (j : Input) × (Input.read_string no_floats uint_16 no_flags cut_short ≡ raise parse_error j)
read_string_truncated_example =
    read_string_truncated no_floats uint_16 cut_short (codes "hello") (5 ∷ 0 ∷ codes "hell")
      (codes "o") no_flags (omega arith) (omega arith) hello_bytes (omega arith) refl
