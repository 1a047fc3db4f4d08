-- ===== src/Binary/Format.antt =====
-- bomba_binary_protocol.hpp as an implementation of the interface of formats.
use bomba.Base.{ℕ}
use bomba.Base.Outcome.{return}
use bomba.Binary.Input
use bomba.Binary.Input.{Input}
use bomba.Binary.Number.{FloatConversion}
use bomba.Binary.Output
use bomba.Binary.Output.{Output}
use bomba.Core.Flags.{NumericType}
use bomba.Core.Structured.{StructuredOutput, StructuredInput, type_invalid}

module _ (fp : FloatConversion) (size_type : NumericType) where
  abbrev pub binary_output : StructuredOutput Output
  binary_output = record {
    write_int = Output.write_int fp size_type;
    write_string = Output.write_string fp size_type;
    write_bool = Output.write_bool fp size_type;
    write_null = Output.write_null fp size_type;
    start_writing_array = Output.start_writing_array fp size_type;
    introduce_array_element = Output.introduce_array_element fp size_type;
    end_writing_array = Output.end_writing_array fp size_type;
    start_writing_object = Output.start_writing_object fp size_type;
    introduce_object_member = Output.introduce_object_member fp size_type;
    end_writing_object = Output.end_writing_object fp size_type;
    write_optional = Output.write_optional fp size_type;
  }

  -- `identifyType` is not supported: it says that the type is invalid.
  abbrev pub binary_input : ℕ → StructuredInput Input
  binary_input max_depth = record {
    identify_type = λ flags. return type_invalid;
    read_int = Input.read_int fp size_type;
    read_string = Input.read_string fp size_type;
    read_bool = Input.read_bool fp size_type;
    read_null = Input.read_null fp size_type;
    start_reading_array = Input.start_reading_array fp size_type max_depth;
    next_array_element = Input.next_array_element fp size_type;
    end_reading_array = Input.end_reading_array fp size_type;
    skip_object_element = Input.skip_object_element fp size_type;
  }
