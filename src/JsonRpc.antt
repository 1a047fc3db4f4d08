-- ===== src/JsonRpc.antt =====
-- bomba_json_rpc.hpp, JsonRpcServerProtocol: how a request is answered whose members may come in any
-- order, over any structured input and output. Floating-point identifiers and the texts of exceptions
-- are parameters.
pub mod Once
mod Tests
use bomba.Base.{
  ℕ, zero, suc, Bool, true, false, not, ◌&&◌, ◌||◌, Bytes, if◌then◌else◌, Option, none, some,
}
use bomba.Base.Int.{ℤ, pos, negsuc}
use bomba.Base.Outcome.{
  M, Outcome, Exception, ok, raise, undefined, diverges, parse_error, remote_error, ◌>>=◌, ◌>>◌,
  return, continue,
}
use bomba.Base.Text.{codes}
use bomba.Core.Flags.{no_flags}
use bomba.Core.Path.{find_callable}
use bomba.Core.Structured.{
  StructuredOutput, StructuredInput, MemberType, type_integer, type_float, type_string,
  type_boolean, type_null, type_array, type_object, type_invalid,
}
use bomba.Base.Text.{same_text}

-- JsonRpcError
pub data JsonRpcError : Type 0 where
  parse_failed invalid_request method_unknown invalid_params internal_error : JsonRpcError

unfoldable pub error_code : JsonRpcError → ℤ
error_code parse_failed = negsuc 32699
error_code invalid_request = negsuc 32599
error_code method_unknown = negsuc 32600
error_code invalid_params = negsuc 32601
error_code internal_error = negsuc 32602

-- The handlers of `respondInternal`.
unfoldable pub error_of : Exception → JsonRpcError
error_of parse_error = parse_failed
error_of remote_error = invalid_params
error_of _ = internal_error

abbrev pub is_some : {A : Type 0} → Option A → Bool
is_some none = false
is_some (some a) = true

-- The variables of a call of `respondInternal`, with its input and output and what methods change.
pub record Run (I O W Node : Type 0) : Type 0 where
  pub input : I
  pub output : O
  pub world : W
  pub failed : Bool
  pub responding : Bool
  pub params_position : Option ℕ
  pub method : Option Node
  pub called : Bool

-- The functors that a method is called with.
pub record Introduce (S : Type 0) : Type 0 where
  pub result : M S (Unit {0})
  pub error : Bytes → M S (Unit {0})

-- What the server stands on: the output, the input with its positions and its `readObject`, the copy of
-- an identifier that is a floating-point number, the texts of exceptions, and the callables. `call` is
-- told whether there are arguments and whether the output is the null output.
pub record Environment (I O W Node : Type 0) : Type 0 where
  pub out : StructuredOutput O
  pub inp : StructuredInput I
  pub store_position : M I ℕ
  pub restore_position : ℕ → M I (Unit {0})
  pub read_object : (Bytes → M (Run I O W Node) Bool) → M (Run I O W Node) (Unit {0})
  pub copy_float : M (I × O) (Unit {0})
  pub what : Exception → Bytes
  pub get_child : Node → Bytes → Option Node
  pub call : Node → Bool → Bool → Introduce (Run I O W Node) → M (Run I O W Node) (Unit {0})

module _ {I O W Node : Type 0} (env : Environment I O W Node) where
  abbrev pub on_output : {A : Type 0} → M O A → M (Run I O W Node) A
  on_output m s =
      continue (m s.output) (λ o. record s { output = o }) (λ a o. ok a (record s { output = o }))

  abbrev pub on_input : {A : Type 0} → M I A → M (Run I O W Node) A
  on_input m s =
      continue (m s.input) (λ i. record s { input = i }) (λ a i. ok a (record s { input = i }))

  abbrev pub set_called : M (Run I O W Node) (Unit {0})
  set_called s = ok tt (record s { called = true })

  -- The identifier is copied by its type.
  unfoldable pub copy_id : MemberType → M (Run I O W Node) (Unit {0})
  copy_id type_integer = do
    value ← on_input (env.inp.read_int no_flags)
    on_output (env.out.write_int no_flags value)
  copy_id type_string = do
    value ← on_input (env.inp.read_string no_flags)
    on_output (env.out.write_string no_flags value)
  copy_id type_float = λ s.
      continue (env.copy_float (s.input, s.output)) (λ p. record s { input = p.0; output = p.1 })
        (λ _ p. ok tt (record s { input = p.0; output = p.1 }))
  copy_id type_null = do
    on_input (env.inp.read_null no_flags)
    on_output (env.out.write_null no_flags)
  copy_id _ = do
    on_input (env.inp.skip_object_element no_flags)
    on_output (env.out.write_null no_flags)

  unfoldable pub write_head : M O (Unit {0}) → M O (Unit {0})
  write_head on_response_started = do
    on_response_started
    env.out.start_writing_object no_flags (pos 3)
    env.out.introduce_object_member no_flags (codes "jsonrpc") 0
    env.out.write_string no_flags (codes "2.0")
    env.out.introduce_object_member no_flags (codes "id") 1

  abbrev pub set_responding : M (Run I O W Node) (Unit {0})
  set_responding s = ok tt (record s { responding = true })

  -- `writeId`; the functor `onResponseStarted` writes to the output.
  unfoldable pub write_id : M O (Unit {0}) → M (Run I O W Node) (Unit {0})
  unfolding copy_id write_head
  write_id on_response_started = do
    set_responding
    on_output (write_head on_response_started)
    identified ← on_input (env.inp.identify_type no_flags)
    copy_id identified

  unfoldable pub write_error : Bytes → JsonRpcError → M O (Unit {0})
  unfolding error_code
  write_error message error_type = do
    env.out.introduce_object_member no_flags (codes "error") 2
    env.out.start_writing_object no_flags (pos 2)
    env.out.introduce_object_member no_flags (codes "code") 0
    env.out.write_int no_flags (error_code error_type)
    env.out.introduce_object_member no_flags (codes "message") 1
    env.out.write_string no_flags message
    env.out.end_writing_object no_flags

  -- `introduceError`
  unfoldable pub introduce_error : Bytes → JsonRpcError → M (Run I O W Node) (Unit {0})
  unfolding write_error
  introduce_error message error_type s =
      let failing : Run I O W Node = record s { failed = true } in
      if not s.responding then ok tt failing else on_output (write_error message error_type) failing

  unfoldable pub introduce_result : M (Run I O W Node) (Unit {0})
  introduce_result s =
      if s.responding
      then on_output (env.out.introduce_object_member no_flags (codes "result") 2) s
      else ok tt s

  -- The method, with its arguments in front of the reader if their place is known.
  unfoldable pub invoke : Node → M (Run I O W Node) (Unit {0})
  unfolding introduce_error introduce_result
  invoke node s =
      env.call node (is_some s.params_position) (not s.responding)
        (record {
          result = introduce_result;
          error = λ message. introduce_error message internal_error;
        })
        s

  unfoldable pub go_to_params : M (Run I O W Node) (Unit {0})
  go_to_params s = elim s.params_position [
    | none ↦ ok tt s
    | some location ↦ on_input (env.restore_position location) s
  ]

  -- `call`
  unfoldable pub perform : M (Run I O W Node) (Unit {0})
  unfolding invoke go_to_params
  perform s = elim s.method [
    | none ↦ ok tt s
    | some node ↦ (do set_called; go_to_params; invoke node) s
  ]

  unfoldable pub call : M (Run I O W Node) ℕ
  unfolding perform
  call = do former_position ← on_input env.store_position; perform; return former_position

  unfoldable pub call_and_return : M (Run I O W Node) (Unit {0})
  unfolding call
  call_and_return = do former_position ← call; on_input (env.restore_position former_position)

  abbrev pub go_on : M (Run I O W Node) Bool
  go_on s = ok (not s.failed) s

  unfoldable pub on_version : M (Run I O W Node) Bool
  unfolding introduce_error
  on_version = do
    version ← on_input (env.inp.read_string no_flags)
    elim (same_text version (codes "2.0")) [
      | true ↦ go_on
      | false ↦ (do
        introduce_error (codes "Unknown JSON-RPC version") invalid_request
        return false)
    ]

  unfoldable pub skip : M (Run I O W Node) (Unit {0})
  skip = on_input (env.inp.skip_object_element no_flags)

  -- The method is called if it is known and so is the place of its arguments.
  unfoldable pub call_if_ready : M (Run I O W Node) (Unit {0})
  unfolding call_and_return
  call_if_ready s = elim (is_some s.method && is_some s.params_position) [
    | true ↦ call_and_return s
    | false ↦ ok tt s
  ]

  unfoldable pub on_id : M O (Unit {0}) → M (Run I O W Node) Bool
  unfolding write_id call_if_ready skip
  on_id on_response_started s = elim s.called [
    | false ↦ (do write_id on_response_started; call_if_ready; go_on) s
    | true ↦ (do skip; go_on) s
  ]

  unfoldable pub set_method : Node → Bytes → M (Run I O W Node) (Unit {0})
  unfolding introduce_error
  set_method root path s = elim (find_callable env.get_child b'.' path root) [
    | some node ↦ ok tt (record s { method = some node })
    | none ↦ introduce_error (codes "Method not known") method_unknown s
  ]

  -- The method is called if the response has begun and the place of the arguments is known.
  unfoldable pub call_if_responding : M (Run I O W Node) (Unit {0})
  unfolding call_and_return
  call_if_responding s = elim (s.responding && is_some s.params_position) [
    | true ↦ call_and_return s
    | false ↦ ok tt s
  ]

  unfoldable pub on_method : Node → M (Run I O W Node) Bool
  unfolding set_method call_if_responding skip
  on_method root s = elim s.method [
    | none ↦
        (do
          path ← on_input (env.inp.read_string no_flags)
          set_method root path
          call_if_responding
          go_on)
          s
    | some _ ↦ (do skip; go_on) s
  ]

  unfoldable pub call_or_skip : M (Run I O W Node) (Unit {0})
  unfolding call skip
  call_or_skip s = elim (is_some s.method && s.responding) [
    | true ↦ (do ignored ← call; return tt) s
    | false ↦ skip s
  ]

  unfoldable pub on_params : M (Run I O W Node) Bool
  unfolding call_or_skip
  on_params = do
    location ← on_input env.store_position
    λ s. ok tt (record s { params_position = some location })
    call_or_skip
    go_on

  unfoldable pub on_unexpected : M (Run I O W Node) Bool
  unfolding introduce_error
  on_unexpected = do
    introduce_error (codes "Unexpected member in request") invalid_request
    return false

  -- The functor that `readObject` calls with the name of each member.
  unfoldable pub on_member : Node → M O (Unit {0}) → Bytes → M (Run I O W Node) Bool
  unfolding on_version on_id on_method on_params on_unexpected
  on_member root on_response_started name = elim (same_text name (codes "jsonrpc")) [
    | true ↦ on_version
    | false ↦ elim (same_text name (codes "id")) [
      | true ↦ on_id on_response_started
      | false ↦ elim (same_text name (codes "method")) [
        | true ↦ on_method root
        | false ↦ elim (same_text name (codes "params")) [
          | true ↦ on_params
          | false ↦ on_unexpected
        ]
      ]
    ]
  ]

  unfoldable pub check_method : M (Run I O W Node) (Unit {0})
  unfolding introduce_error
  check_method s =
      if is_some s.method
      then ok tt s
      else introduce_error (codes "Method name not found in request") method_unknown s

  -- What follows the members.
  unfoldable pub after_members : M (Run I O W Node) (Unit {0})
  unfolding check_method call_and_return
  after_members s = elim (not s.failed && not s.called) [
    | false ↦ ok tt s
    | true ↦ (do check_method; call_and_return) s
  ]

  unfoldable pub close : M (Run I O W Node) Bool
  close s =
      if s.responding
      then (do on_output (env.out.end_writing_object no_flags); go_on) s
      else go_on s

  unfoldable pub new_run : I → O → W → Run I O W Node
  new_run i o w = record {
    input = i;
    output = o;
    world = w;
    failed = false;
    responding = false;
    params_position = none;
    method = none;
    called = false;
  }

  -- `respondInternal`
  unfoldable pub respond_internal : Node → M O (Unit {0}) → M (Run I O W Node) Bool
  unfolding on_member after_members close introduce_error error_of
  respond_internal root on_response_started s =
      elim ((do env.read_object (on_member root on_response_started); after_members) s) [
        | ok _ t ↦ close t
        | raise e t ↦ (do introduce_error (env.what e) (error_of e); close) t
        | undefined ↦ undefined
        | diverges ↦ diverges
      ]
