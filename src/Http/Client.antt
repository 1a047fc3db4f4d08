-- ===== src/Http/Client.antt =====
-- bomba_http.hpp, HttpClient: the requests it writes, and what it does with the input that the TCP
-- client shows it. Tokens are uint32_t.
use bomba.Base.{
  ℕ, zero, suc, ◌+◌, ◌%◌, ◌^◌, Bool, true, false, not, ◌&&◌, ◌++◌, Bytes, length, take, drop, leb,
  ltb, ◌==◌, if◌then◌else◌, Option, some,
}
use bomba.Base.Charconv.{to_chars}
use bomba.Base.Int.{ℤ, pos, negsuc, pos_part}
use bomba.Base.Outcome.{M, ok, raise, undefined, diverges}
use bomba.Base.Text.{codes}
use bomba.Core.Tcp.{ServerReaction, read_on, wrong_reply, disconnect}
use bomba.Http.Parse.{ParseState, Readers, Answer, parse, run_length, read_body_size}

abbrev not_space : ℕ → Bool
not_space c = not (c == b' ')

-- The first line gives the result code, which is an int as the size of a body is. A line that ends in
-- front of the place where the second loop begins is read past the line break behind it.
unfoldable pub first_line_reader : Bytes → M ℤ Bool
unfolding run_length read_body_size
first_line_reader line code =
    let start = suc (run_length not_space line) in
    let size = suc (run_length not_space (drop (suc start) line)) in
    if ltb (length line) (suc start)
    then undefined
    else ok true (read_body_size (take size (drop start line)) code)

-- `ParseState`; `derived` is its `resultCode`.
abbrev pub reply_readers : Readers ℤ
reply_readers = record {
  first_line_reader = first_line_reader;
  header_reader = λ name value location code. code;
}

unfoldable pub get_text : Bytes → Bytes → Bytes
get_text virtual_host resource =
    codes "GET " ++ resource ++ codes " HTTP/1.1\r\nHost: " ++ virtual_host ++ codes "\r\n\r\n"

-- The size of the content is written over the placeholder when the content is there.
unfoldable pub post_text : Bytes → Bytes → Bytes → Bytes
unfolding to_chars
post_text virtual_host content_type content =
    let digits = to_chars (pos (length content)) in
    codes "POST / HTTP/1.1\r\nContent-Length: "
    ++ digits
    ++ drop (length digits) (
        codes "0         "
        ++ codes "\r\nHost: "
        ++ virtual_host
        ++ codes "\r\nContent-Type: "
        ++ content_type
        ++ codes "\r\n\r\n"
        ++ content)

unfoldable pub next_token : ℕ → ℕ
next_token token = (token + 1) % 2 ^ 32

-- What the callback of `getResponse` captures, and the body and success that `reader` was called with.
pub record Receiving : Type 0 where
  pub parsing : ParseState ℤ
  pub last_token_read : ℕ
  pub done : Bool
  pub delivered : Option (Bytes × Bool)

abbrev is_success : ℤ → Bool
is_success (pos code) = leb 200 code && ltb code 300
is_success (negsuc n) = false

abbrev pub Reaction : Type 0
Reaction = ServerReaction × ℕ × ℤ

abbrev fresh_parsing : Bytes → ParseState ℤ
fresh_parsing input = record {
  input = input;
  parse_position = 0;
  body_size = negsuc 0;
  derived = pos 0;
}

-- The reply is one for another token: it is skipped.
skip_reply : M Receiving Reaction
unfolding next_token
skip_reply r =
    let last = next_token r.last_token_read in
    ok (wrong_reply, last, pos (r.parsing.parse_position + pos_part r.parsing.body_size))
      (record r { parsing = fresh_parsing r.parsing.input; last_token_read = last })

-- A body of a negative size is a range whose end is in front of its beginning.
deliver : Bool → M Receiving Reaction
unfolding next_token
deliver identified r = elim r.parsing.body_size [
  | negsuc n ↦ undefined
  | pos size ↦
      let last = if identified then r.last_token_read else next_token r.last_token_read in
      ok (ServerReaction.ok, last, pos (r.parsing.parse_position + size))
        (record r {
          done = true;
          delivered = some (
            take size (drop r.parsing.parse_position r.parsing.input),
            is_success r.parsing.derived,
          );
          last_token_read = last;
        })
]

-- What follows the header.
receive_body : ℕ → Bool → M Receiving Reaction
unfolding skip_reply deliver next_token
receive_body token identified r =
    if ltb (length r.parsing.input) (r.parsing.parse_position + pos_part r.parsing.body_size)
      && ltb 0 (pos_part r.parsing.body_size)
    then ok (read_on, 0, pos (length r.parsing.input)) r
    else if not identified && not (token == next_token r.last_token_read)
    then skip_reply r
    else deliver identified r

-- What follows a call of `parse`.
after_parse : ℕ → Bool → Answer → M Receiving Reaction
unfolding receive_body
after_parse token identified (ServerReaction.ok, position) r = receive_body token identified r
after_parse token identified (ServerReaction.disconnect, position) r =
    ok (disconnect, 0, position) (record r { done = true })
after_parse token identified (reaction, position) r = ok (reaction, 0, position) r

-- The callback that `getResponse` gives to the TCP client, on an input.
unfoldable pub receive : ℕ → Bool → M Receiving Reaction
unfolding parse after_parse receive_body
receive token identified r = elim r.parsing.body_size [
  | pos n ↦ receive_body token identified r
  | negsuc (suc n) ↦ receive_body token identified r
  | negsuc zero ↦ elim (parse reply_readers r.parsing) [
    | ok answer p ↦ after_parse token identified answer (record r { parsing = p })
    | raise e p ↦ raise e (record r { parsing = p })
    | undefined ↦ undefined
    | diverges ↦ diverges
  ]
]
