-- ===== src/Http/Server/Get.antt =====
-- A GET request without attributes, from the bytes of the request to the bytes of the response.
use bomba.Base.{
  ℕ, suc, Bool, ◌+◌, ◌≤◌, true, false, not, [], ◌∷◌, ◌++◌, Bytes, length, length-append, take, drop,
  drop-drop, take-length_append, ltb, bytes_eq, ◌==◌, if◌then◌else◌, ◌≡◌, refl, ap, ◌∙◌, arith,
  append_assoc, All,
}
use mathlib.Core.Path.{subst}
use bomba.Base.Int.{pos, negsuc}
use bomba.Base.Outcome.{Outcome, ok, >>=-ok}
use bomba.Base.Text.{codes}
use bomba.Core.Tcp.{ServerReaction}
use bomba.Http.Parse.{ParseState, Answer, parse, run_length}
use bomba.Http.Parse.Lines.{run_length-append}
use bomba.Http.Parse.Whole.{ends_header, parse-ends_header}
use bomba.Http.Server.Request.{
  Request, get_request, first_line_reader, request_readers, method_type, not_space, is_http,
  weird_request, uninvestigated_request,
}
use bomba.Http.Server.Respond.{
  Session, Responders, respond, restore, reply_text, not_found, answer_request, locate_header,
  after_header, answer_get,
}

-- A path as it can stand in a request: without spaces and line breaks.
abbrev pub IsPath : Bytes → Type 0
IsPath path = All (λ c. (not_space c ≡ true) × (not (c == b'\r') ≡ true)) path

abbrev pub request_line : Bytes → Bytes
request_line path = codes "GET " ++ (path ++ codes " HTTP/1.1")

no_spaces : (path : Bytes) → IsPath path → All (λ c. not_space c ≡ true) path
no_spaces [] h = tt
no_spaces (c ∷ cs) h = (h.0.0, no_spaces cs h.1)

pub no_breaks :
    (path rest : Bytes)
    → IsPath path
    → All (λ c. not (c == b'\r') ≡ true) rest
    → All (λ c. not (c == b'\r') ≡ true) (path ++ rest)
no_breaks [] rest h k = k
no_breaks (c ∷ cs) rest h k = (h.0.1, no_breaks cs rest h.1 k)

drop-past : (xs rest : Bytes) (c : ℕ) → drop (suc (length xs)) (xs ++ (c ∷ rest)) ≡ rest
drop-past [] rest c = refl
drop-past (x ∷ xs) rest c = drop-past xs rest c

not_less : (a b : ℕ) → b ≤ a → ltb a b ≡ false
not_less a b h = ground (arith, h)

inner :
    (line : Bytes) (m : ℕ) (r : Request)
    → run_length not_space (drop (suc (run_length not_space line)) line) ≡ m
    → suc (suc (run_length not_space line) + m) ≤ length line
    → first_line_reader line r
      ≡ ok true (record r {
        request_type =
            if is_http (drop (suc (suc (run_length not_space line) + m)) line)
            then method_type (take (run_length not_space line) line)
            else weird_request;
        path = (suc (run_length not_space line), m);
      })
unfolding first_line_reader
inner line m r b c =
    rw (b, first_line_reader)
      (rw (
        not_less (length line) (suc (run_length not_space line)) (omega (arith, c)),
        not_less _ _ c,
      ))

-- The reader, where the lengths of the two words are known.
first_line_reader-split :
    (line : Bytes) (n m : ℕ) (r : Request)
    → run_length not_space line ≡ n
    → run_length not_space (drop (suc n) line) ≡ m
    → suc (suc n + m) ≤ length line
    → first_line_reader line r
      ≡ ok true (record r {
        request_type =
            if is_http (drop (suc (suc n + m)) line)
            then method_type (take n line)
            else weird_request;
        path = (suc n, m);
      })
unfolding first_line_reader
first_line_reader-split line n m r a b c =
    subst
      (λ (n : ℕ).
        run_length not_space (drop (suc n) line) ≡ m
        → suc (suc n + m) ≤ length line
        → first_line_reader line r
          ≡ ok true (record r {
            request_type =
                if is_http (drop (suc (suc n + m)) line)
                then method_type (take n line)
                else weird_request;
            path = (suc n, m);
          }))
      a (inner line m r) b c

-- A line of three words, the last of which is the protocol.
abbrev pub three_words : Bytes → Bytes → Bytes
three_words word path = word ++ (b' ' ∷ (path ++ codes " HTTP/1.1"))

pub first_line_reader-three_words :
    (word path : Bytes) (r : Request)
    → All (λ c. not_space c ≡ true) word
    → IsPath path
    → first_line_reader (three_words word path) r
      ≡ ok true
          (record r { request_type = method_type word; path = (suc (length word), length path) })
unfolding bytes_eq
first_line_reader-three_words word path r h k =
    let protocol = codes " HTTP/1.1" in
    let line = three_words word path in
    let behind : drop (suc (length word)) line ≡ path ++ protocol =
      drop-past word (path ++ protocol) b' ' in
    let first = run_length-append not_space word (path ++ protocol) b' ' h refl in
    let walked =
      ap (run_length not_space) behind
      ∙ run_length-append not_space path (codes "HTTP/1.1") b' ' (no_spaces path k) refl in
    let last : drop (suc (suc (length word) + length path)) line ≡ codes "HTTP/1.1" =
      ap (λ (n : ℕ). drop n line) {x = suc (suc (length word) + length path)}
        {y = suc (length word) + suc (length path)} (omega arith)
      ∙ drop-drop (suc (length word)) (suc (length path)) line
      ∙ ap (drop (suc (length path))) behind
      ∙ drop-past path (codes "HTTP/1.1") b' ' in
    let result : Bytes → Bytes → Outcome Request Bool = λ method version. ok true (record r {
      request_type = if is_http version then method_type method else weird_request;
      path = (suc (length word), length path);
    }) in
    first_line_reader-split line (length word) (length path) r first walked
      (omega (arith, length-append word (b' ' ∷ (path ++ protocol)), length-append path protocol))
    ∙ ap (λ (l : Bytes). result l (drop (suc (suc (length word) + length path)) line))
        (take-length_append word (b' ' ∷ (path ++ protocol)))
    ∙ ap (result word) last

first_line_reader-request_line :
    (path : Bytes) (r : Request)
    → IsPath path
    → first_line_reader (request_line path) r
      ≡ ok true (record r { request_type = get_request; path = (4, length path) })
unfolding method_type bytes_eq
first_line_reader-request_line path r h =
    first_line_reader-three_words (codes "GET") path r (refl, (refl, (refl, tt))) h

-- A connection that waits for a request.
abbrev pub waiting : Bytes → ℕ × ℕ → ServerReaction → Bytes → ℕ × ℕ → Session
waiting input content_type ending sent path = record {
  parsing = record {
    input = input;
    parse_position = 0;
    body_size = negsuc 0;
    derived = record {
      request_type = uninvestigated_request;
      path = path;
      content_type = content_type;
      ending = ending;
    };
  };
  sent = sent;
}

line-no_breaks :
    (path : Bytes) → IsPath path → All (λ c. not (c == b'\r') ≡ true) (request_line path)
line-no_breaks path h =
    let protocol : All (λ c. not (c == b'\r') ≡ true) (codes " HTTP/1.1") =
      (refl, (refl, (refl, (refl, (refl, (refl, (refl, (refl, (refl, tt))))))))) in
    (refl, (refl, (refl, (refl, no_breaks path (codes " HTTP/1.1") h protocol))))

pub locate_header-parsed :
    (s : Session) (p : ParseState Request) (answer : Answer)
    → parse request_readers s.parsing ≡ ok answer p
    → locate_header s ≡ ok answer (record s { parsing = p })
unfolding locate_header
locate_header-parsed s p answer h = rw (h, locate_header)

respond-parsed :
    (responders : Responders) (s : Session) (p : ParseState Request) (n : ℕ)
    → s.parsing.body_size ≡ negsuc 0
    → parse request_readers s.parsing ≡ ok (ServerReaction.ok, pos n) p
    → respond responders s ≡ answer_request responders (record s { parsing = p })
unfolding respond after_header
respond-parsed responders s p n unset parsed =
    rw (unset, respond)
      (>>=-ok locate_header (after_header responders) {s = s}
        (locate_header-parsed s p (ServerReaction.ok, pos n) parsed))

-- To a GET request of a path, with no attributes, the server writes what the responder replies to that
-- path; it takes exactly the request from the input, whatever follows it, and waits for the next one.
pub respond-request_line :
    (responders : Responders) (path rest sent : Bytes) (content_type old_path : ℕ × ℕ)
    (ending : ServerReaction)
    → IsPath path
    → respond responders
        (waiting (request_line path ++ ends_header rest) content_type ending sent old_path)
      ≡ ok
          (ending, pos (length (request_line path) + 4))
          (waiting
            (request_line path ++ ends_header rest)
            content_type
            ending
            (sent ++ reply_text not_found (responders.get path))
            (4, length path))
unfolding answer_request answer_get restore
respond-request_line responders path rest sent content_type old_path ending h =
    let s = waiting (request_line path ++ ends_header rest) content_type ending sent old_path in
    let parsed =
      parse-ends_header request_readers (request_line path) rest (negsuc 0) s.parsing.derived
        (record s.parsing.derived { request_type = get_request; path = (4, length path) })
        (line-no_breaks path h) (first_line_reader-request_line path s.parsing.derived h) in
    let protocol = codes " HTTP/1.1" in
    let viewed : take (length path) ((path ++ protocol) ++ ends_header rest) ≡ path =
      ap (take (length path)) (append_assoc path protocol (ends_header rest))
      ∙ take-length_append path (protocol ++ ends_header rest) in
    let result : ℕ → Bytes → Outcome Session Answer = λ n shown.
      ok (ending, pos n)
        (waiting (request_line path ++ ends_header rest) content_type ending
          (sent ++ reply_text not_found (responders.get shown)) (4, length path)) in
    respond-parsed responders s _ _ refl parsed
    ∙ ap (result (length (request_line path) + 2 + 2)) viewed
    ∙ ap (λ n. result n path) {y = length (request_line path) + 4} (omega arith)
