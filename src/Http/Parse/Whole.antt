-- ===== src/Http/Parse/Whole.antt =====
-- A header that is a first line alone, from its first byte on.
use bomba.Base.{
  ℕ, suc, ◌+◌, ◌<◌, true, not, [], ◌∷◌, ◌++◌, Bytes, length, length-append, take,
  take-length_append, get_elem?, ◌==◌, if◌then◌else◌, some, ◌≡◌, refl, ap, ◌∙◌, arith, All,
}
use bomba.Base.Int.{ℤ, pos, decr}
use bomba.Base.Outcome.{Exception, ok, raise, >>=-ok, ◌>>=◌}
use bomba.Core.Tcp.{ServerReaction, read_on}
use bomba.Http.Parse.{
  ParseState, Readers, run_length, header_loop, header_lines, end_of_header, read_first_line,
  first_line_of, parse,
}
use bomba.Http.Parse.Lines.{run_length-append, run_length-all}

get_elem?-behind : (xs ys : Bytes) (k : ℕ) → get_elem? (xs ++ ys) (length xs + k) ≡ get_elem? ys k
get_elem?-behind [] ys k = ap (get_elem? ys) {x = 0 + k} {y = k} (omega arith)
get_elem?-behind (x ∷ xs) ys k =
    ap (get_elem? (x ∷ (xs ++ ys))) {x = suc (length xs) + k} {y = suc (length xs + k)}
      (omega arith)
    ∙ get_elem?-behind xs ys k

-- Two line breaks, and what follows them.
abbrev pub ends_header : Bytes → Bytes
ends_header rest = b'\r' ∷ b'\n' ∷ b'\r' ∷ b'\n' ∷ rest

module _ {X : Type 0} (readers : Readers X) where
  end_of_header-lem :
      (s : ParseState X)
      → get_elem? s.input (s.parse_position + 1) ≡ some b'\n'
      → end_of_header readers s
        ≡ ok
            (ServerReaction.ok, pos (s.parse_position + 2))
            (record s { parse_position = s.parse_position + 2 })
  unfolding end_of_header
  end_of_header-lem s h = rw (h, end_of_header)

  header_loop-end :
      (fuel : ℕ) (s : ParseState X)
      → get_elem? s.input s.parse_position ≡ some b'\r'
      → header_loop readers (suc fuel) s ≡ end_of_header readers s
  unfolding header_loop
  header_loop-end fuel s h = rw (h, header_loop)

  header_lines-end :
      (s : ParseState X)
      → s.parse_position < length s.input
      → get_elem? s.input s.parse_position ≡ some b'\r'
      → get_elem? s.input (s.parse_position + 1) ≡ some b'\n'
      → header_lines readers s
        ≡ ok
            (ServerReaction.ok, pos (s.parse_position + 2))
            (record s { parse_position = s.parse_position + 2 })
  unfolding header_lines
  header_lines-end s inside a b =
      ground (arith, inside, header_loop-end (length s.input) s a ∙ end_of_header-lem s b)

  read_first_line-lem :
      (line : Bytes) (s : ParseState X) (y : X)
      → readers.first_line_reader line s.derived ≡ ok true y
      → read_first_line readers line s ≡ ok true (record s { derived = y })
  unfolding read_first_line
  read_first_line-lem line s y h = rw (h, read_first_line)

  first_line_of-lem :
      (size : ℕ) (s : ParseState X) (y : X)
      → readers.first_line_reader (take size s.input) s.derived ≡ ok true y
      → get_elem? s.input (size + 1) ≡ some b'\n'
      → first_line_of readers size s
        ≡ header_lines readers (record s { parse_position = size + 2; derived = y })
  unfolding first_line_of
  first_line_of-lem size s y h a =
      >>=-ok (λ s. read_first_line readers (take size s.input) s) _
        (read_first_line-lem (take size s.input) s y h)
      ∙ rw (a, if◌then◌else◌)

  parse-first :
      (size : ℕ) (s : ParseState X)
      → s.parse_position ≡ 0
      → run_length (λ c. not (c == b'\r')) s.input ≡ size
      → size < length s.input
      → parse readers s ≡ first_line_of readers size s
  unfolding parse
  parse-first size s start h inside = ground (arith, start, h, inside)

  -- A first line that is accepted, with an empty line behind it, is a header. The position is behind
  -- the empty line.
  pub parse-ends_header :
      (line rest : Bytes) (size : ℤ) (x y : X)
      → All (λ c. not (c == b'\r') ≡ true) line
      → readers.first_line_reader line x ≡ ok true y
      → parse readers (record {
        input = line ++ ends_header rest;
        parse_position = 0;
        body_size = size;
        derived = x;
      })
        ≡ ok
            (ServerReaction.ok, pos (length line + 2 + 2))
            (record {
              input = line ++ ends_header rest;
              parse_position = length line + 2 + 2;
              body_size = size;
              derived = y;
            })
  parse-ends_header line rest size x y h accepted =
      let input : Bytes = line ++ ends_header rest in
      let s : ParseState X = record {
        input = input;
        parse_position = 0;
        body_size = size;
        derived = x;
      } in
      let long : length input ≡ length line + length (ends_header rest) =
        length-append line (ends_header rest) in
      let walked =
        run_length-append (λ c. not (c == b'\r')) line (b'\n' ∷ b'\r' ∷ b'\n' ∷ rest) b'\r' h
          refl in
      let taken =
        ap (λ (l : Bytes). readers.first_line_reader l x)
          (take-length_append line (ends_header rest)) in
      parse-first (length line) s refl walked (omega (arith, long))
      ∙ first_line_of-lem (length line) s y (taken ∙ accepted)
          (get_elem?-behind line (ends_header rest) 1)
      ∙ header_lines-end (record s { parse_position = length line + 2; derived = y })
          (omega (arith, long)) (get_elem?-behind line (ends_header rest) 2)
          (ap (get_elem? input) {x = length line + 2 + 1} {y = length line + 3} (omega arith)
            ∙ get_elem?-behind line (ends_header rest) 3)

  read_first_line-refused :
      (line : Bytes) (s : ParseState X) (e : Exception) (y : X)
      → readers.first_line_reader line s.derived ≡ raise e y
      → read_first_line readers line s ≡ raise e (record s { derived = y })
  unfolding read_first_line
  read_first_line-refused line s e y h = rw (h, read_first_line)

  first_line_of-refused :
      (size : ℕ) (s : ParseState X) (e : Exception) (y : X)
      → readers.first_line_reader (take size s.input) s.derived ≡ raise e y
      → first_line_of readers size s ≡ raise e (record s { derived = y })
  unfolding first_line_of
  first_line_of-refused size s e y h =
      rw (read_first_line-refused (take size s.input) s e y h, ◌>>=◌)

  -- What the reader of the first line throws is thrown when the line is complete.
  pub parse-refused :
      (line rest : Bytes) (s : ParseState X) (e : Exception) (y : X)
      → s.parse_position ≡ 0
      → s.input ≡ line ++ (b'\r' ∷ rest)
      → All (λ c. not (c == b'\r') ≡ true) line
      → readers.first_line_reader line s.derived ≡ raise e y
      → parse readers s ≡ raise e (record s { derived = y })
  parse-refused line rest s e y start text h refused =
      let walked =
        ap (run_length (λ c. not (c == b'\r'))) text
        ∙ run_length-append (λ c. not (c == b'\r')) line rest b'\r' h refl in
      let taken = ap (take (length line)) text ∙ take-length_append line (b'\r' ∷ rest) in
      let long = ap (λ (l : Bytes). length l) text ∙ length-append line (b'\r' ∷ rest) in
      parse-first (length line) s start walked (omega (arith, long))
      ∙ first_line_of-refused (length line) s e y
          (ap (λ (l : Bytes). readers.first_line_reader l s.derived) taken ∙ refused)

  -- Without a line break the first line is waited for.
  pub parse-unfinished :
      (s : ParseState X)
      → s.parse_position ≡ 0
      → All (λ c. not (c == b'\r') ≡ true) s.input
      → parse readers s ≡ ok (read_on, decr (pos (length s.input))) s
  unfolding parse
  parse-unfinished s start h =
      ground (arith, start, run_length-all (λ c. not (c == b'\r')) s.input h)
