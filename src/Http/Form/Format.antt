-- ===== src/Http/Form/Format.antt =====
-- bomba_http.hpp, HtmlMessageEncoding as an implementation of the interface of formats.
use bomba.Core.Structured.{StructuredOutput, StructuredInput}
use bomba.Http.Form.Input
use bomba.Http.Form.Input.{Input}
use bomba.Http.Form.Output
use bomba.Http.Form.Output.{Output}

abbrev pub form_output : StructuredOutput Output
form_output = record {
  write_int = λ flags. Output.write_int;
  write_string = λ flags. Output.write_string;
  write_bool = λ flags. Output.write_bool;
  write_null = Output.write_null;
  start_writing_array = λ flags size. Output.no_arrays;
  introduce_array_element = λ flags index. Output.no_arrays;
  end_writing_array = λ flags. Output.no_arrays;
  start_writing_object = λ flags size. Output.start_writing_object;
  introduce_object_member = λ flags name index. Output.introduce_object_member name;
  end_writing_object = λ flags. Output.end_writing_object;
  write_optional = Output.write_optional;
}

abbrev pub form_input : StructuredInput Input
form_input = record {
  identify_type = λ flags. Input.identify_type;
  read_int = λ flags. Input.read_int;
  read_string = λ flags. Input.read_string;
  read_bool = λ flags. Input.read_bool;
  read_null = λ flags. Input.read_null;
  start_reading_array = λ flags. Input.no_arrays;
  next_array_element = λ flags. Input.no_arrays;
  end_reading_array = λ flags. Input.no_arrays;
  skip_object_element = λ flags. Input.skip_object_element;
}
