-- ===== src/Http/Server/Request.antt =====
-- bomba_http.hpp, HttpServer::Session::ParseState: the readers of a request's first line and of the
-- attributes of its header.
use bomba.Base.{
  ℕ, suc, ◌+◌, Bool, true, not, ◌||◌, Bytes, length, take, drop, bytes_eq, ltb, ◌==◌, if◌then◌else◌,
}
use bomba.Base.Outcome.{M, ok, raise, undefined, out_of_range}
use bomba.Base.Text.{codes}
use bomba.Core.Tcp.{ServerReaction, disconnect}
use bomba.Http.Parse.{Readers, run_length}

pub data RequestType : Type 0 where
  uninvestigated_request unknown_request get_request post_request weird_request : RequestType

-- A pair is where a text begins in the input, and its length.
pub record Request : Type 0 where
  pub request_type : RequestType
  pub path : ℕ × ℕ
  pub content_type : ℕ × ℕ
  pub ending : ServerReaction

unfoldable pub method_type : Bytes → RequestType
method_type name =
    if bytes_eq name (codes "GET")
    then get_request
    else if bytes_eq name (codes "POST")
    then post_request
    else weird_request

abbrev pub is_http : Bytes → Bool
is_http protocol = bytes_eq protocol (codes "HTTP/1.1") || bytes_eq protocol (codes "HTTP/1.0")

abbrev pub not_space : ℕ → Bool
not_space c = not (c == b' ')

-- The loops look at the character behind the line before they compare the index. It is the line
-- break in the buffer, no space, so they end there. Without a space in the line, the second loop looks
-- one character further, which may be outside of the input. `substr` throws beyond the end of the line.
unfoldable pub first_line_reader : Bytes → M Request Bool
unfolding method_type run_length
first_line_reader line r =
    let separator1 = run_length not_space line in
    let start = suc separator1 in
    let size = run_length not_space (drop start line) in
    let separator2 = suc (start + size) in
    let method = method_type (take separator1 line) in
    let located = record r { request_type = method; path = (start, size) } in
    if ltb (length line) start
    then undefined
    else if ltb (length line) separator2
    then raise out_of_range located
    else ok true (record located {
      request_type = if is_http (drop separator2 line) then method else weird_request;
    })

unfoldable pub header_reader : Bytes → Bytes → ℕ × ℕ → Request → Request
header_reader name value location r =
    if bytes_eq name (codes "content-type")
    then record r { content_type = location }
    else if bytes_eq name (codes "connection")
    then (if bytes_eq value (codes "close") then record r { ending = disconnect } else r)
    else r

abbrev pub request_readers : Readers Request
request_readers = record { first_line_reader = first_line_reader; header_reader = header_reader }
