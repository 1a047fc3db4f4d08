-- ===== src/Binary/RoundTrip/Encodes.antt =====
-- What it means that the binary format carries a value over, and that it does so for integers.
use Prim.Native.Nat.{bit_or}
use bomba.Base.{ℕ, ◌++◌, Bytes, length, ◌≡◌, arith}
use bomba.Base.Int.{ℤ}
use bomba.Base.Outcome.{ok}
use bomba.Binary.Format.{binary_output, binary_input}
use bomba.Binary.Input.{Input, advance}
use bomba.Binary.Number.{FloatConversion}
use bomba.Binary.Output
use bomba.Binary.Output.{Output}
use bomba.Binary.RoundTrip.{
  Stands, Fits, encoded, length-encoded, read_int-Stands, write_number-encoded,
}
use bomba.Core.Flags.Types.{type_with_flags-type_to_flags, plain-has_flag}
use bomba.Core.Integer.{InRange, narrow-InRange}
use bomba.Core.Flags.{Flags, NumericType, no_flags, type_to_flags}
use bomba.Core.Serialiser.{TypedSerialiser, integer}

-- The binary format carries a value over under the flags: as these bytes, whatever follows.
pub record Encodes {T : Type 0} (s : TypedSerialiser Output Input T) (flags : Flags) (v : T)
    : Type 0 where
  pub bytes : Bytes
  pub writes : (o : Output) → s.serialise_member v flags o ≡ ok tt (o ++ bytes)
  pub reads :
      (i : Input) (old : T) (k : ℕ) (rest : Bytes)
      → Stands i (bytes ++ rest)
      → s.deserialise_member k old flags i ≡ ok v (advance (length bytes) i)

-- An integer of a type that the flags name is carried over.
pub integer-Encodes :
    (fp : FloatConversion) (size_type : NumericType) (max_depth : ℕ) (t : NumericType) (v : ℤ)
    → Fits t v
    → InRange t v
    → Encodes
        (integer (binary_output fp size_type) (binary_input fp size_type max_depth) t)
        no_flags
        v
unfolding Output.write_int
integer-Encodes fp size_type max_depth t v fits range =
    let named = type_with_flags-type_to_flags t no_flags (omega arith) in
    let plain = plain-has_flag no_flags (omega arith) in
    record {
      bytes = encoded fp t v;
      writes = λ o.
          ground
            (arith, plain, write_number-encoded fp t v (bit_or no_flags (type_to_flags t)) named);
      reads = λ i old k rest at. ground (
        arith,
        plain,
        read_int-Stands fp size_type i t v (bit_or no_flags (type_to_flags t)) rest named fits at,
        length-encoded fp t v,
        narrow-InRange t v range,
      );
    }
