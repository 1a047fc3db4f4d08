-- ===== src/Binary/RoundTrip/Vector.antt =====
-- A vector in the binary format: the loop that reads it asks `nextArrayElement` in front of every
-- element, but that counts the elements behind the one in front of the reader.
use bomba.Base.{ℕ, List, [], ◌∷◌, ◌++◌, Bytes, All}
use bomba.Base.Int.{ℤ, negsuc}
use bomba.Binary.Input
use bomba.Binary.Input.{Input}
use bomba.Binary.Number.{FloatConversion}
use bomba.Binary.Output
use bomba.Binary.Output.{Output}
use bomba.Core.Flags.{Flags, NumericType}
use bomba.Core.Serialiser.{TypedSerialiser}
use bomba.Binary.RoundTrip.Encodes.{Encodes}

module _ (fp : FloatConversion) (size_type : NumericType) (max_depth : ℕ) where
  module _ {T : Type 0} (s : TypedSerialiser Output Input T) (flags : Flags) where
    abbrev all_bytes : (xs : List T) → All (Encodes s flags) xs → Bytes
    all_bytes [] h = []
    all_bytes (x ∷ xs) (h, hs) = h.bytes ++ all_bytes xs hs

  abbrev pub fresh : Bytes → ℕ → ℤ → List ℤ → Input
  fresh contents position x sizes = record {
    contents = contents;
    position = position;
    sizes = x ∷ sizes;
    depth = negsuc 0;
  }
