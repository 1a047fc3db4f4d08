-- ===== src/JsonRpc/Tests.antt =====
-- Requests whose members come in a given order, with readers and writers that do nothing.
use bomba.Base.{
  if◌then◌else◌, ℕ, suc, Bool, true, false, List, [], ◌∷◌, Bytes, none, some, ◌≡◌, refl, arith,
}
use bomba.Base.Int.{pos}
use bomba.Base.Outcome.{M, Outcome, ok, raise, undefined, diverges, ◌>>=◌, return, After}
use bomba.Base.Text.{codes}
use bomba.Core.Path.{find_callable}
use bomba.Core.Structured.{StructuredOutput, StructuredInput, type_null}
use bomba.Base.Text.{same_text}
use bomba.JsonRpc.{Run, Environment, on_member, new_run, respond_internal}
use bomba.Json.Format.{json_input}
use bomba.Json.Input.{Input}
use bomba.Base.Charconv.{from_chars}
use bomba.Json.Object
use bomba.Json.Object.{store_position, restore_position}
use bomba.JsonRpc.Once.JsonReader.{read_members}
use bomba.JsonRpc.Once.{IsCounted, AtMostOnce}
use bomba.JsonRpc.Once.Reports.{Reports, went_on, ended}
use bomba.JsonRpc.Once.Whole.{respond_internal-AtMostOnce}

abbrev quiet_output : StructuredOutput ℕ
quiet_output = record {
  write_int = λ flags value. return tt;
  write_string = λ flags value. return tt;
  write_bool = λ flags value. return tt;
  write_null = λ flags. return tt;
  start_writing_array = λ flags size. return tt;
  introduce_array_element = λ flags index. return tt;
  end_writing_array = λ flags. return tt;
  start_writing_object = λ flags size. return tt;
  introduce_object_member = λ flags name index. return tt;
  end_writing_object = λ flags. return tt;
  write_optional = λ flags present value. value;
}

abbrev quiet_input : StructuredInput ℕ
quiet_input = record {
  identify_type = λ flags. return type_null;
  read_int = λ flags. return (pos 0);
  read_string = λ flags. return (codes "ping");
  read_bool = λ flags. return true;
  read_null = λ flags. return tt;
  start_reading_array = λ flags. return tt;
  next_array_element = λ flags. return false;
  end_reading_array = λ flags. return tt;
  skip_object_element = λ flags. return tt;
}

abbrev Quiet : Type 0
Quiet = Run ℕ ℕ ℕ Bool

-- Every member is reported.
abbrev report : List Bytes → (Bytes → M Quiet Bool) → M Quiet (Unit {0})
report [] f = return tt
report (name ∷ names) f = do ignored ← f name; report names f

-- The root is `false`, and its method `ping` is `true`, which counts its calls.
abbrev quiet : List Bytes → Environment ℕ ℕ ℕ Bool
quiet names = record {
  out = quiet_output;
  inp = quiet_input;
  store_position = return 0;
  restore_position = λ location. return tt;
  read_object = report names;
  copy_float = return tt;
  what = λ e. [];
  get_child = λ node name. if same_text name (codes "ping") then some true else none;
  call = λ node has_arguments is_null introduce s. ok tt (record s { world = suc s.world });
}

abbrev once : List Bytes
once = codes "method" ∷ codes "params" ∷ codes "id" ∷ []

-- The same over the reader of JSON, with fuel for the members of a short text.
abbrev over_json : Environment Input ℕ ℕ Bool
over_json = record {
  out = quiet_output;
  inp = json_input;
  store_position = store_position;
  restore_position = restore_position;
  read_object = read_members ℕ ℕ Bool 9;
  copy_float = return tt;
  what = λ e. [];
  get_child = λ node name. if same_text name (codes "ping") then some true else none;
  call = λ node has_arguments is_null introduce s. ok tt (record s { world = suc s.world });
}

abbrev request_at : ℕ → Input
request_at position = record {
  contents = codes "{\"method\":\"ping\",\"params\":0,\"id\":1}";
  position = position;
  good = true;
}

abbrev asked : Bytes → M (Run Input ℕ ℕ Bool) Bool
asked = on_member over_json false (return tt)

over_json-IsCounted : IsCounted over_json (λ n. n) 0
over_json-IsCounted node has_arguments is_null introduce s = (refl, refl, refl, refl)

-- The names that JSON reports, with the reader behind each.
request_reported :
    Reports asked once
      (new_run over_json (request_at 0) 0 0)
      (read_members ℕ ℕ Bool 9 asked (new_run over_json (request_at 0) 0 0))
unfolding on_member new_run find_callable Object.read_object bomba.Json.Input.eat_whitespace
    bomba.Json.Input.get_char bomba.Json.Input.peek_char bomba.Json.Input.read_string store_position
    Object.skip_object_element bomba.Json.Input.identify_type bomba.Json.Input.read_int from_chars
    restore_position
request_reported =
    went_on (request_at 9) refl
      (went_on (request_at 25) refl (went_on (request_at 32) refl (ended _ (request_at 35))))

respond_internal-AtMostOnce_example :
    After
      (AtMostOnce over_json (λ n. n) 0)
      (AtMostOnce over_json (λ n. n) 0)
      (respond_internal over_json false (return tt) (new_run over_json (request_at 0) 0 0))
respond_internal-AtMostOnce_example =
    respond_internal-AtMostOnce over_json (λ n. n) 0 over_json-IsCounted false (return tt)
      (request_at 0) 0 0 once request_reported (omega arith) refl

abbrev calls : Outcome Quiet Bool → ℕ
calls (ok _ s) = s.world
calls (raise _ s) = s.world
calls undefined = 0
calls diverges = 0

calls-once :
    calls (respond_internal (quiet once) false (return tt) (new_run (quiet once) 0 0 0)) ≡ 1
unfolding respond_internal new_run find_callable
calls-once = refl

-- A second `params` calls the method again.
abbrev twice : List Bytes
twice = codes "method" ∷ codes "id" ∷ codes "params" ∷ codes "params" ∷ []

calls-twice :
    calls (respond_internal (quiet twice) false (return tt) (new_run (quiet twice) 0 0 0)) ≡ 2
unfolding respond_internal new_run find_callable
calls-twice = refl
