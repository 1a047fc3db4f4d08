-- ===== src/Json/Format.antt =====
-- bomba_json.hpp as an implementation of the interface of formats. JSON leaves the flags unused.
use bomba.Core.Structured.{StructuredOutput, StructuredInput}
use bomba.Json.Input
use bomba.Json.Input.{Input}
use bomba.Json.Object
use bomba.Json.Output
use bomba.Json.Output.{Output}

abbrev pub json_output : StructuredOutput Output
json_output = record {
  write_int = λ flags. Output.write_int;
  write_string = λ flags. Output.write_string;
  write_bool = λ flags. Output.write_bool;
  write_null = λ flags. Output.write_null;
  start_writing_array = λ flags. Output.start_writing_array;
  introduce_array_element = λ flags. Output.introduce_array_element;
  end_writing_array = λ flags. Output.end_writing_array;
  start_writing_object = λ flags. Output.start_writing_object;
  introduce_object_member = λ flags. Output.introduce_object_member;
  end_writing_object = λ flags. Output.end_writing_object;
  write_optional = λ flags. Output.write_optional;
}

abbrev pub json_input : StructuredInput Input
json_input = record {
  identify_type = λ flags. Input.identify_type;
  read_int = λ flags. Input.read_int;
  read_string = λ flags. Input.read_string;
  read_bool = λ flags. Input.read_bool;
  read_null = λ flags. Input.read_null;
  start_reading_array = λ flags. Input.start_reading_array;
  next_array_element = λ flags. Input.next_array_element;
  end_reading_array = λ flags. Input.end_reading_array;
  skip_object_element = λ flags. Object.skip_object_element;
}
