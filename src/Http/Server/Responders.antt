-- ===== src/Http/Server/Responders.antt =====
-- bomba_http.hpp: the responders that the repository has for a server: DummyGetResponder,
-- SimpleGetResponder, DummyPostResponder, HtmlPostResponder, RpcGetResponder with the dispatcher
-- DownloadIfFilePresent. A tree of remote callables is a parameter.
use bomba.Base.{
  suc, Bool, true, false, [], ◌∷◌, ◌++◌, Bytes, length, take, drop, ltb, if◌then◌else◌, Option,
  none, some,
}
use bomba.Base.Int.{pos}
use bomba.Base.Text.{codes}
use bomba.Core.Path.{find_callable}
use bomba.Http.Form.Input.{Input, run_until}
use bomba.Http.Server.Respond.{Reply, known_size, unknown_size}

unfoldable pub dummy_get : Bytes → Reply
dummy_get input = record { responses = []; success = some false }

unfoldable pub simple_get : Bytes → Bytes → Bytes → Reply
simple_get resource resource_type input = record {
  responses = known_size resource_type (pos (length resource)) resource ∷ [];
  success = some true;
}

unfoldable pub dummy_post : Bytes → Bytes → Bytes → Reply
dummy_post input body_type body = record { responses = []; success = some false }

-- A reply without a response of its own.
abbrev silent : Option Bool → Reply
silent success = record { responses = []; success = success }

abbrev form_type : Bytes
form_type = codes "application/x-www-form-urlencoded"

-- The reader of a form's text.
abbrev pub reader_of : Bytes → Input
reader_of text = record { contents = text; position = 0; object_started = false }

-- `get_child` and `call` are the virtual methods of a callable. `call` reads its arguments and
-- returns what it writes to the output, or throws.
module _ {Node : Type 0} (get_child : Node → Bytes → Option Node)
    (call : Node → Input → Option Bytes) (root : Node) where
  -- `substr(1)` of an empty path throws, which is `none`.
  unfoldable pub method_at : Bytes → Option (Option Node)
  method_at [] = none
  method_at (c ∷ path) = some (find_callable get_child b'/' path root)

  unfoldable pub html_post : Bytes → Bytes → Bytes → Reply
  unfolding method_at
  html_post path body_type request = elim (method_at path) [
    | none ↦ silent none
    | some found ↦ elim found [
      | none ↦ silent (some false)
      | some method ↦ elim (call method (reader_of request)) [
        | none ↦ silent none
        | some output ↦ silent (some true)
      ]
    ]
  ]

  -- `DownloadIfFilePresent::dispatch`, where `file` is what the writer does.
  unfoldable pub dispatch : Option Node → Bytes → Reply → Reply
  dispatch method args file = elim file.success [
    | none ↦ file
    | some file_found ↦ elim method [
      | none ↦ file
      | some callable ↦ elim (call callable (reader_of args)) [
        | none ↦ record file { success = none }
        | some output ↦ if file_found then record file { success = some true } else record {
          responses = file.responses ++ (unknown_size form_type output ∷ []);
          success = some true;
        }
      ]
    ]
  ]

  -- `RpcGetResponder::get`; the arguments are behind the first question mark.
  unfoldable pub rpc_get : (Bytes → Reply) → Bytes → Reply
  unfolding dispatch method_at run_until
  rpc_get provider entire_path =
      let transition = run_until b'?' entire_path in
      let path = take transition entire_path in
      if ltb transition (length entire_path)
      then elim (method_at path) [
        | none ↦ silent none
        | some method ↦ dispatch method (drop (suc transition) entire_path) (provider path)
      ]
      else dispatch none [] (provider entire_path)
