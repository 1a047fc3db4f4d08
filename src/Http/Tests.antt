-- ===== src/Http/Tests.antt =====
-- The theorems on HTTP at concrete inputs, and runs.
use bomba.Base.{length, ◌++◌, ◌+◌, [], ◌∷◌, ◌≡◌, refl, arith, true, some}
use bomba.Base.Outcome.{ok, raise, out_of_range}
use bomba.Http.Server.Malformed.{respond-malformed}
use bomba.Base.Int.{pos, decr}
use bomba.Base.Text.{codes}
use bomba.Core.Tcp.{ServerReaction, read_on, disconnect}
use bomba.Http.Server.Respond.{Session, Responders, known_size, respond, reply_text, not_found}
use bomba.Http.Parse.Whole.{ends_header}
use bomba.Http.Server.Refused.{respond-no_line, respond-post_without_size}
use bomba.Http.Server.Get.{three_words, waiting, request_line, respond-request_line}
use bomba.Http.Url.{mangle_http_response, demangle_utf8_url, demangle_http_response}
use bomba.Http.Url.RoundTrip.{demangle_utf8_url-mangle_http_response}

form_escapes : mangle_http_response 0 (codes "a b&c") ≡ codes "a+b%26c"
unfolding mangle_http_response
form_escapes = refl

-- A text that looks like a numeric entity is taken for one.
entity_confused : demangle_http_response 0 (mangle_http_response 0 (codes "&#65;")) ≡ codes "A"
unfolding mangle_http_response demangle_http_response
entity_confused = refl

demangle_utf8_url-mangle_http_response_example :
    demangle_utf8_url 0 (mangle_http_response 0 (codes "50% of+x")) ≡ codes "50% of+x"
demangle_utf8_url-mangle_http_response_example =
    demangle_utf8_url-mangle_http_response (codes "50% of+x") (
      omega arith,
      (
        omega arith,
        (
          omega arith,
          (omega arith, (omega arith, (omega arith, (omega arith, (omega arith, tt))))),
        ),
      ),
    )

abbrev files : Responders
files = record {
  get = λ path. record {
    responses = known_size (codes "text/plain") (pos 2) (codes "hi") ∷ [];
    success = some true;
  };
  post = λ path content_type body. record { responses = []; success = some true };
}

respond-request_line_example :
    respond files (
      waiting
        (request_line (codes "/a.txt") ++ ends_header (codes "GET /"))
        (0, 0)
        ServerReaction.ok
        []
        (0, 0))
    ≡ ok
        (ServerReaction.ok, pos (length (request_line (codes "/a.txt")) + 4))
        (waiting
          (request_line (codes "/a.txt") ++ ends_header (codes "GET /"))
          (0, 0)
          ServerReaction.ok
          ([] ++ reply_text not_found (files.get (codes "/a.txt")))
          (4, length (codes "/a.txt")))
respond-request_line_example =
    respond-request_line files (codes "/a.txt") (codes "GET /") [] (0, 0) (0, 0) ServerReaction.ok
      (
        (refl, refl),
        ((refl, refl), ((refl, refl), ((refl, refl), ((refl, refl), ((refl, refl), tt))))),
      )

-- What the example sends.
sent_text :
    reply_text not_found (files.get (codes "/a.txt"))
    ≡ codes "HTTP/1.1 200 OK\r\nContent-Length: 2\r\nContent-Type: text/plain\r\n\r\nhi"
unfolding reply_text
sent_text = refl

-- A line without the protocol.
respond-malformed_example :
    (t : Session) × (respond files
        (waiting (codes "GET /x\r\n\r\n") (0, 0) ServerReaction.ok [] (0, 0))
      ≡ raise out_of_range t)
    × (t.sent ≡ [])
respond-malformed_example =
    respond-malformed files (waiting (codes "GET /x\r\n\r\n") (0, 0) ServerReaction.ok [] (0, 0))
      (codes "GET /x") (codes "\n\r\n") refl refl refl
      (refl, (refl, (refl, (refl, (refl, (refl, tt)))))) (omega arith)

respond-no_line_example :
    respond files (waiting (codes "GET /a") (0, 0) ServerReaction.ok [] (0, 0))
    ≡ ok (read_on, decr (pos 6)) (waiting (codes "GET /a") (0, 0) ServerReaction.ok [] (0, 0))
respond-no_line_example =
    respond-no_line files (codes "GET /a") [] (0, 0) (0, 0) ServerReaction.ok
      (refl, (refl, (refl, (refl, (refl, (refl, tt))))))

respond-post_without_size_example :
    (t : Session) × (respond files (
        waiting
          (three_words (codes "POST") (codes "/a") ++ ends_header [])
          (0, 0)
          ServerReaction.ok
          []
          (0, 0))
      ≡ ok (disconnect, pos 0) t)
    × (t.sent ≡ [])
respond-post_without_size_example =
    respond-post_without_size files (codes "/a") [] [] (0, 0) (0, 0) ServerReaction.ok
      ((refl, refl), ((refl, refl), tt))
