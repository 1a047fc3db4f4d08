-- ===== src/Http/Server/Refused.antt =====
-- Requests that the server does not answer: one that has not arrived yet, and a POST request that
-- does not tell the size of its body.
use bomba.Base.{ℕ, ◌+◌, true, not, ◌++◌, Bytes, length, ◌==◌, bytes_eq, ◌≡◌, refl, All}
use bomba.Base.Int.{pos, negsuc, decr}
use bomba.Base.Outcome.{ok, >>=-ok}
use bomba.Base.Text.{codes}
use bomba.Core.Tcp.{ServerReaction, read_on, disconnect}
use bomba.Http.Parse.{ParseState, Answer, parse}
use bomba.Http.Parse.Whole.{parse-unfinished, parse-ends_header, ends_header}
use bomba.Http.Server.Request.{Request, request_readers, post_request, method_type}
use bomba.Http.Server.Respond.{
  Session, Responders, respond, restore, locate_header, after_header, answer_request, answer_post,
}
use bomba.Http.Server.Get.{
  IsPath, waiting, locate_header-parsed, three_words, first_line_reader-three_words, no_breaks,
}

respond-unfinished_parse :
    (responders : Responders) (s : Session) (p : ParseState Request) (answer : Answer)
    → s.parsing.body_size ≡ negsuc 0
    → parse request_readers s.parsing ≡ ok answer p
    → respond responders s ≡ after_header responders answer (record s { parsing = p })
unfolding respond
respond-unfinished_parse responders s p answer unset parsed =
    rw (unset, respond)
      (>>=-ok locate_header (after_header responders) {s = s}
        (locate_header-parsed s p answer parsed))

-- While the input of a waiting server has no carriage return, it asks for more, reports one less than
-- the length of the input, and stays as it was, so that it begins anew with the longer input.
pub respond-no_line :
    (responders : Responders) (input sent : Bytes) (content_type path : ℕ × ℕ)
    (ending : ServerReaction)
    → All (λ c. not (c == b'\r') ≡ true) input
    → respond responders (waiting input content_type ending sent path)
      ≡ ok (read_on, decr (pos (length input))) (waiting input content_type ending sent path)
unfolding after_header restore
respond-no_line responders input sent content_type path ending h =
    let s = waiting input content_type ending sent path in
    respond-unfinished_parse responders s s.parsing (read_on, decr (pos (length input))) refl
      (parse-unfinished request_readers s.parsing refl h)

-- A POST request of a path that has no attributes, and so does not tell the size of its body, is
-- answered by the end of the connection, and nothing is written.
pub respond-post_without_size :
    (responders : Responders) (path rest sent : Bytes) (content_type old_path : ℕ × ℕ)
    (ending : ServerReaction)
    → IsPath path
    → (t : Session) × (respond responders (
          waiting
            (three_words (codes "POST") path ++ ends_header rest)
            content_type
            ending
            sent
            old_path)
        ≡ ok (disconnect, pos 0) t)
      × (t.sent ≡ sent)
unfolding after_header answer_request answer_post method_type bytes_eq
respond-post_without_size responders path rest sent content_type old_path ending h =
    let line = three_words (codes "POST") path in
    let s = waiting (line ++ ends_header rest) content_type ending sent old_path in
    let protocol : All (λ c. not (c == b'\r') ≡ true) (codes " HTTP/1.1") =
      (refl, (refl, (refl, (refl, (refl, (refl, (refl, (refl, (refl, tt))))))))) in
    let r : Request = record s.parsing.derived {
      request_type = post_request;
      path = (5, length path);
    } in
    let p : ParseState Request = record s.parsing {
      parse_position = length line + 2 + 2;
      derived = r;
    } in
    let parsed =
      parse-ends_header request_readers line rest (negsuc 0) s.parsing.derived r
        (refl, (refl, (refl, (refl, (refl, no_breaks path (codes " HTTP/1.1") h protocol)))))
        (first_line_reader-three_words (codes "POST") path s.parsing.derived
          (refl, (refl, (refl, (refl, tt)))) h) in
    (
      record s { parsing = p },
      respond-unfinished_parse responders s p (ServerReaction.ok, pos (length line + 2 + 2)) refl
          parsed,
      refl,
    )
