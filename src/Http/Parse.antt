-- ===== src/Http/Parse.antt =====
-- bomba_http.hpp, Detail::HttpParseState: the parser of a message's header, which the server and the
-- client derive from. The buffer is a part of the state, for the names of attributes are put in lower
-- case in it. Reading it out of bounds is undefined behaviour.
pub mod Lines
pub mod Whole
use bomba.Base.{
  ℕ, zero, suc, ◌+◌, ◌-◌, ◌*◌, ◌^◌, ◌<◌, Bool, true, false, not, ◌||◌, [], ◌∷◌, ◌++◌, Bytes, length,
  get_elem?, take, drop, bytes_eq, ltb, leb, ◌==◌, within, if◌then◌else◌, Option, none, some,
}
use bomba.Base.Charconv.{FromChars, parsed, invalid_argument, result_out_of_range, from_chars}
use bomba.Base.Int.{ℤ, pos, negsuc, decr}
use bomba.Base.Outcome.{M, Outcome, ok, raise, undefined, diverges, ◌>>=◌, ◌>>◌, return}
use bomba.Base.Text.{codes}
use bomba.Core.Tcp.{ServerReaction, read_on, disconnect}

-- `derived` holds the fields of the derived class.
pub record ParseState (X : Type 0) : Type 0 where
  pub input : Bytes
  pub parse_position : ℕ
  pub body_size : ℤ
  pub derived : X

-- The virtual methods: `firstLineReader` may throw, and `headerReader` is told where the value is.
pub record Readers (X : Type 0) : Type 0 where
  pub first_line_reader : Bytes → M X Bool
  pub header_reader : Bytes → Bytes → ℕ × ℕ → X → X

abbrev pub Answer : Type 0
Answer = ServerReaction × ℤ

-- A loop that walks while a character passes the test: how many it walks over.
unfoldable pub run_length : (ℕ → Bool) → Bytes → ℕ
run_length test [] = 0
run_length test (c ∷ cs) = let more = suc (run_length test cs) in if test c then more else 0

unfoldable pub lower : ℕ → ℕ
lower c = if within b'A' b'Z' c then c + 32 else c

abbrev pub is_space : ℕ → Bool
is_space c = c == b' ' || c == b'\t'

abbrev pub is_name_end : ℕ → Bool
is_name_end c = is_space c || c == b':'

-- The characters of a name are put in lower case, up to its end.
unfoldable pub lower_name : Bytes → Bytes
unfolding lower
lower_name [] = []
lower_name (c ∷ cs) = let rest = lower c ∷ lower_name cs in if is_name_end c then c ∷ cs else rest

unfoldable pub has_colon : Bytes → Bool
has_colon [] = false
has_colon (c ∷ cs) = c == b':' || has_colon cs

-- `{READ_ON, position - 1}`
abbrev pub read_on_at : {X : Type 0} → ℕ → M (ParseState X) Answer
read_on_at position s = ok (read_on, decr (pos position)) s

abbrev pub disconnect_now : {X : Type 0} → M (ParseState X) Answer
disconnect_now s = ok (disconnect, pos 0) s

-- `std::from_chars` into `bodySize`, an int; on an error it keeps its value.
unfoldable pub read_body_size : Bytes → ℤ → ℤ
unfolding from_chars
read_body_size value old = elim (from_chars (2 ^ 31) (2 ^ 31 - 1) value) [
  | parsed size n ↦ size
  | invalid_argument ↦ old
  | result_out_of_range n ↦ old
]

module _ {X : Type 0} (readers : Readers X) where
  -- "Use the data": an attribute named `content-length` sets the size, another goes to the reader.
  unfoldable pub use_data : Bytes → Bytes → ℕ × ℕ → ParseState X → ParseState X
  unfolding read_body_size
  use_data name value location s =
      if bytes_eq name (codes "content-length")
      then record s { body_size = read_body_size value s.body_size }
      else record s { derived = readers.header_reader name value location s.derived }

  -- The value that begins at `start`, and what is done with it.
  value_at : ℕ → Bytes → M (ParseState X) (Option Answer)
  unfolding use_data run_length
  value_at start name s =
      let size = run_length (λ c. not (c == b'\r')) (drop start s.input) in
      let value = take size (drop start s.input) in
      let next = start + size + 2 in
      let used = record (use_data name value (start, size) s) { parse_position = next } in
      if leb (length s.input) (start + size)
      then ok (some (read_on, decr (pos (start + size)))) s
      else if leb (length s.input) next
      then ok (some (read_on, decr (pos next))) used
      else ok none used

  -- The name that begins at `start`, and what is behind it.
  name_at : ℕ → M (ParseState X) (Option Answer)
  unfolding value_at lower_name run_length has_colon
  name_at start s =
      let size = run_length (λ c. not (is_name_end c)) (drop start s.input) in
      let lowered = record s { input = take start s.input ++ lower_name (drop start s.input) } in
      let name = take size (drop start lowered.input) in
      let behind = drop (start + size) lowered.input in
      let skipped = run_length is_name_end behind in
      if leb (length s.input) (start + size)
      then ok (some (read_on, decr (pos (start + size)))) lowered
      else if leb (length s.input) (start + size + skipped)
      then ok (some (read_on, decr (pos (start + size + skipped)))) lowered
      else if not (has_colon (take skipped behind))
      then ok (some (disconnect, pos 0)) lowered
      else value_at (start + size + skipped) name lowered

  -- A line of the header that begins at `position`; the answer `none` is that the loop goes on.
  unfoldable pub header_line : ℕ → M (ParseState X) (Option Answer)
  unfolding name_at run_length
  header_line position s =
      let start = position + run_length is_space (drop position s.input) in
      if leb (length s.input) start
      then ok (some (read_on, decr (pos start))) s
      else name_at start s

  -- What follows the loop: the last line break, and the body behind it.
  end_of_header : M (ParseState X) Answer
  end_of_header s = elim (get_elem? s.input (s.parse_position + 1)) [
    | none ↦ read_on_at s.parse_position s
    | some c ↦
        if c == b'\n'
        then ok (ServerReaction.ok, pos (s.parse_position + 2))
            (record s { parse_position = s.parse_position + 2 })
        else disconnect_now s
  ]

  -- "Parse it line by line". The loop is at `parse_position`. Every line takes two characters at
  -- least, so as many rounds as there are characters are enough.
  unfoldable pub header_loop : ℕ → M (ParseState X) Answer
  unfolding header_line end_of_header
  header_loop zero s = diverges
  header_loop (suc fuel) s = elim (get_elem? s.input s.parse_position) [
    | none ↦ undefined
    | some c ↦ elim (c == b'\r') [
      | true ↦ end_of_header s
      | false ↦
          (do
            answer ← header_line s.parse_position
            elim answer [ some a ↦ return a | none ↦ header_loop fuel ])
            s
    ]
  ]

  -- The test between the first line and the loop.
  header_lines : M (ParseState X) Answer
  unfolding header_loop
  header_lines s =
      if s.parse_position == length s.input
      then read_on_at s.parse_position s
      else header_loop (suc (length s.input)) s

  -- A call of `firstLineReader`.
  read_first_line : Bytes → M (ParseState X) Bool
  read_first_line line s = elim (readers.first_line_reader line s.derived) [
    | ok b x ↦ ok b (record s { derived = x })
    | raise e x ↦ raise e (record s { derived = x })
    | undefined ↦ undefined
    | diverges ↦ diverges
  ]

  -- The first line, which has `size` characters in front of its line break.
  first_line_of : ℕ → M (ParseState X) Answer
  unfolding read_first_line header_lines
  first_line_of size = do
    accepted ← (λ s. read_first_line (take size s.input) s)
    if accepted
        then (λ s. elim (get_elem? s.input (size + 1)) [
          | none ↦ read_on_at (size + 1) s
          | some c ↦
              if c == b'\n'
              then header_lines (record s { parse_position = size + 2 })
              else disconnect_now s
        ])
        else disconnect_now

  unfoldable pub parse : M (ParseState X) Answer
  unfolding first_line_of header_lines run_length
  parse s =
      if s.parse_position == 0
      then (let size = run_length (λ c. not (c == b'\r')) s.input in
          if size == length s.input then read_on_at size s else first_line_of size s)
      else header_lines s
