-- ===== src/Http/Server/Malformed.antt =====
-- A request line that is not made of three words.
use bomba.Base.{
  ℕ, suc, ◌≤◌, true, not, [], ◌∷◌, ◌++◌, Bytes, length, length-drop, take, drop, ◌==◌,
  if◌then◌else◌, Bool-cases, inl, inr, ◌≡◌, refl, arith, All,
}
use bomba.Base.Int.{negsuc}
use bomba.Base.Outcome.{raise, out_of_range, ◌>>=◌}
use bomba.Http.Parse.{ParseState, run_length, parse}
use bomba.Http.Parse.Whole.{parse-refused}
use bomba.Http.Server.Request.{Request, first_line_reader, request_readers, not_space, method_type}
use bomba.Http.Server.Respond.{Session, Responders, respond, locate_header}

-- How many spaces a line has.
abbrev pub spaces : Bytes → ℕ
spaces [] = 0
spaces (c ∷ cs) = if c == b' ' then suc (spaces cs) else spaces cs

run_length-no_space : (line : Bytes) → spaces line ≡ 0 → run_length not_space line ≡ length line
unfolding run_length
run_length-no_space [] h = refl
run_length-no_space (c ∷ cs) h = elim (Bool-cases (c == b' ')) [
  | inl space ↦ absurd (ground (arith, space, h))
  | inr other ↦ ground (arith, other, run_length-no_space cs (ground (arith, other, h)))
]

behind_first :
    (line : Bytes) → spaces line ≤ 1 → spaces (drop (suc (run_length not_space line)) line) ≡ 0
unfolding run_length
behind_first [] h = refl
behind_first (c ∷ cs) h = elim (Bool-cases (c == b' ')) [
  | inl space ↦ rw space (ground (arith, space, h))
  | inr other ↦ rw other (behind_first cs (ground (arith, other, h)))
]

run_length-space : (line : Bytes) → 1 ≤ spaces line → suc (run_length not_space line) ≤ length line
unfolding run_length
run_length-space [] h = absurd (omega (arith, h))
run_length-space (c ∷ cs) h = elim (Bool-cases (c == b' ')) [
  | inl space ↦ rw space (omega arith)
  | inr other ↦
      let rest = run_length-space cs (ground (arith, other, h)) in rw other (omega (arith, rest))
]

first_line_reader-malformed :
    (line : Bytes) (r : Request)
    → spaces line ≡ 1
    → (t : Request) × (first_line_reader line r ≡ raise out_of_range t)
unfolding first_line_reader method_type
first_line_reader-malformed line r h =
    let start = suc (run_length not_space line) in
    let size = run_length-no_space (drop start line) (behind_first line (omega (arith, h))) in
    let separated = run_length-space line (omega (arith, h)) in
    let long = length-drop start line in
    (
      record r {
        request_type = method_type (take (run_length not_space line) line);
        path = (start, run_length not_space (drop start line));
      },
      ground (arith, size, long, separated),
    )

locate_header-refused :
    (s : Session) (p : ParseState Request)
    → parse request_readers s.parsing ≡ raise out_of_range p
    → locate_header s ≡ raise out_of_range (record s { parsing = p })
unfolding locate_header
locate_header-refused s p h = rw (h, locate_header)

respond-refused :
    (responders : Responders) (s : Session) (p : ParseState Request)
    → s.parsing.body_size ≡ negsuc 0
    → parse request_readers s.parsing ≡ raise out_of_range p
    → respond responders s ≡ raise out_of_range (record s { parsing = p })
unfolding respond
respond-refused responders s p unset refused =
    rw (unset, respond) (rw (locate_header-refused s p refused, ◌>>=◌))

-- A server that waits for a request throws out_of_range out of `respond`, and writes nothing, when
-- the first line of the input is complete and has exactly one space.
pub respond-malformed :
    (responders : Responders) (s : Session) (line rest : Bytes)
    → s.parsing.parse_position ≡ 0
    → s.parsing.body_size ≡ negsuc 0
    → s.parsing.input ≡ line ++ (b'\r' ∷ rest)
    → All (λ c. not (c == b'\r') ≡ true) line
    → spaces line ≡ 1
    → (t : Session) × (respond responders s ≡ raise out_of_range t) × (t.sent ≡ s.sent)
respond-malformed responders s line rest start unset text h one_space =
    let (r, refused) = first_line_reader-malformed line s.parsing.derived one_space in
    let p : ParseState Request = record s.parsing { derived = r } in
    (
      record s { parsing = p },
      respond-refused responders s p unset
          (parse-refused request_readers line rest s.parsing out_of_range r start text h refused),
      refl,
    )
