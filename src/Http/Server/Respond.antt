-- ===== src/Http/Server/Respond.antt =====
-- bomba_http.hpp, HttpServer::Session::respond and the responses it writes.
use bomba.Base.{
  ℕ, zero, suc, ◌+◌, Bool, true, false, List, [], ◌∷◌, ◌++◌, Bytes, length, take, drop, ltb,
  if◌then◌else◌, Option, none, some,
}
use bomba.Base.Charconv.{to_chars}
use bomba.Base.Int.{ℤ, pos, negsuc}
use bomba.Base.Outcome.{M, ok, raise, undefined, diverges, ◌>>=◌, ◌>>◌}
use bomba.Base.Text.{codes}
use bomba.Core.Flags.{int_32}
use bomba.Core.Integer.{narrow}
use bomba.Core.Tcp.{ServerReaction, read_on, disconnect}
use bomba.Http.Parse.{ParseState, Answer, parse}
use bomba.Http.Server.Request.{
  Request, request_readers, uninvestigated_request, unknown_request, get_request, post_request,
  weird_request,
}

-- A response that a responder starts through `IWriteStarter`: its type, its content, and the size
-- that is announced, if any.
pub data Response : Type 0 where
  known_size : Bytes → ℤ → Bytes → Response
  unknown_size : Bytes → Bytes → Response

-- What a responder's call does: the responses it starts, and its result; `none` is an exception.
pub record Reply : Type 0 where
  pub responses : List Response
  pub success : Option Bool

pub record Responders : Type 0 where
  pub get : Bytes → Reply
  pub post : Bytes → Bytes → Bytes → Reply

pub record Session : Type 0 where
  pub parsing : ParseState Request
  pub sent : Bytes

abbrev pub correct_intro : Bytes
correct_intro = codes "HTTP/1.1 200 OK\r\nContent-Length:"

abbrev pub unset_size : Bytes
unset_size = codes " 0         "

-- `startCorrectResponse` behind the size.
abbrev pub type_header : Bytes → Bytes
type_header content_type = codes "\r\nContent-Type: " ++ content_type ++ codes "\r\n\r\n"

-- What reaches `writer`. An announced size is cast to an int. An unknown one is written over the
-- placeholder when the content is there; it has at most twelve digits.
unfoldable pub response_text : Response → Bytes
unfolding to_chars narrow
response_text (known_size content_type size content) =
    correct_intro ++ (b' ' ∷ to_chars (narrow int_32 size)) ++ type_header content_type ++ content
response_text (unknown_size content_type content) =
    let digits = to_chars (pos (length content)) in
    correct_intro
    ++ (b' ' ∷ digits)
    ++ drop (suc (length digits)) (unset_size ++ type_header content_type ++ content)

unfoldable pub responses_text : List Response → Bytes
unfolding response_text
responses_text [] = []
responses_text (r ∷ rs) = response_text r ++ responses_text rs

abbrev pub not_found : Bytes
not_found =
    codes "HTTP/1.1 404 Not Found\r\nContent-Length: 73\r\n\r\n"
    ++ codes "<!doctype html><html lang=en><title>Error 404: Resource not found</title>"

abbrev pub bad_request : Bytes
bad_request =
    codes "HTTP/1.1 400 Bad Request\r\nContent-Length: 66\r\n\r\n"
    ++ codes "<!doctype html><html lang=en><title>Error 400: Bad request</title>"

abbrev pub internal_error : Bytes
internal_error =
    codes "HTTP/1.1 500 Internal Server Error\r\nContent-Length: 76\r\n\r\n"
    ++ codes "<!doctype html><html lang=en><title>Error 500: Internal server error</title>"

abbrev pub no_content : Bytes
no_content = codes "HTTP/1.1 204 No Content\r\n\r\n"

abbrev pub not_implemented : Bytes
not_implemented =
    codes "HTTP/1.1 501 Method Not Implemented\n\rContent-Length: 77\r\n\r\n"
    ++ codes "<!doctype html><html lang=en><title>Error 501: Method not implemented</title>"

-- All that is written for a responder's reply, where `refusal` stands for no success.
unfoldable pub reply_text : Bytes → Reply → Bytes
unfolding responses_text
reply_text refusal reply = responses_text reply.responses ++ elim reply.success [
  | none ↦ internal_error
  | some false ↦ refusal
  | some true ↦ elim reply.responses [ [] ↦ no_content | r ∷ rs ↦ [] ]
]

-- `writer(text)`
abbrev put : Bytes → M Session (Unit {0})
put text s = ok tt (record s { sent = s.sent ++ text })

-- The text at a place of the input.
abbrev pub view : Bytes → ℕ × ℕ → Bytes
view input (start, size) = take size (drop start input)

abbrev pub set_body_size : ℤ → Session → Session
set_body_size size s = record s { parsing = record s.parsing { body_size = size } }

-- `restore()`
unfoldable pub restore : Session → Session
restore s = record s {
  parsing = record s.parsing {
    parse_position = 0;
    body_size = negsuc 0;
    derived = record s.parsing.derived { request_type = uninvestigated_request };
  };
}

-- The last two lines of `respond`: the state is restored, and `consuming` returned.
abbrev finish : ℕ → M Session Answer
finish consuming s = ok (s.parsing.derived.ending, pos consuming) (restore s)

-- A call of `parse`.
unfoldable pub locate_header : M Session Answer
unfolding parse
locate_header s = elim (parse request_readers s.parsing) [
  | ok answer p ↦ ok answer (record s { parsing = p })
  | raise e p ↦ raise e (record s { parsing = p })
  | undefined ↦ undefined
  | diverges ↦ diverges
]

module _ (responders : Responders) where
  unfoldable pub answer_get : M Session Answer
  unfolding restore reply_text
  answer_get s =
      let path = view s.parsing.input s.parsing.derived.path in
      (do put (reply_text not_found (responders.get path)); finish s.parsing.parse_position) s

  -- A body of a negative size is a range whose end is in front of its beginning.
  unfoldable pub answer_post : M Session Answer
  unfolding restore reply_text
  answer_post s =
      let input = s.parsing.input in
      let start = s.parsing.parse_position in
      let path = view input s.parsing.derived.path in
      let content_type = view input s.parsing.derived.content_type in
      elim s.parsing.body_size [
        | negsuc zero ↦ ok (disconnect, pos 0) s
        | negsuc (suc n) ↦ undefined
        | pos size ↦
            if ltb (length input) (start + size)
            then ok (read_on, pos (length input)) s
            else (do
              put (
                  reply_text bad_request
                    (responders.post path content_type (view input (start, size))))
              finish (start + size))
                s
      ]

  answer_other : M Session Answer
  unfolding restore
  answer_other s = (do put not_implemented; finish s.parsing.parse_position) s

  -- What follows the header, of which `bodySize` is kept for a POST request only.
  unfoldable pub answer_request : M Session Answer
  unfolding answer_get answer_post answer_other
  answer_request s = elim s.parsing.derived.request_type [
    | post_request ↦ answer_post s
    | get_request ↦ answer_get (set_body_size (pos 0) s)
    | weird_request ↦ answer_other (set_body_size (pos 0) s)
    | unknown_request ↦ answer_other (set_body_size (pos 0) s)
    | uninvestigated_request ↦ answer_other (set_body_size (pos 0) s)
  ]

  unfoldable pub after_header : Answer → M Session Answer
  unfolding answer_request restore
  after_header (ServerReaction.ok, position) s = answer_request s
  after_header (reaction, position) s = ok (reaction, position) (restore s)

  unfoldable pub respond : M Session Answer
  unfolding locate_header after_header answer_request
  respond s = elim s.parsing.body_size [
    | negsuc zero ↦ (do answer ← locate_header; after_header answer) s
    | negsuc (suc n) ↦ answer_request s
    | pos n ↦ answer_request s
  ]
