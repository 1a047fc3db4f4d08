-- ===== src/Json/RoundTrip.antt =====
-- What the JSON writer wrote, read by the JSON reader: strings, integers, booleans and null.
pub mod Gaps
pub mod Members
pub mod Vector
pub mod Whole
use bomba.Base.{
  ℕ, zero, suc, ◌+◌, ◌*◌, ◌≤◌, ◌<◌, Bool, true, false, not, ◌||◌, ◌&&◌, [], ◌∷◌, ◌++◌, Bytes,
  length, length-append, get_elem?, get_elem?-drop, drop, drop-drop, drop-length_append, ltb, leb,
  ◌==◌, within, if◌then◌else◌, Option, none, some, ◌≡◌, ◌≢◌, refl, sym, ap, ◌∙◌, arith,
  append_assoc, append-nil, Bool-cases, inl, inr, All,
}
use bomba.Base.Charconv.{
  to_chars, to_digits, is_digit, IsDigit, IsInt64, from_chars, parsed, int64_low, int64_high,
}
use bomba.Base.Charconv.RoundTrip.{
  from_chars-to_chars, StopsDigits, to_digits-All, length-to_digits_pos,
}
use bomba.Base.Int.{ℤ, pos, negsuc}
use bomba.Base.Outcome.{
  M, Outcome, ok, raise, diverges, parse_error, remote_error, ◌>>=◌, ◌>>◌, return, >>=-ok,
}
use bomba.Base.Text.{codes}
use bomba.Json.Input.{
  Input, remaining, advance, get_char, peek_char, is_blank, is_float_tail, blanks, eat_whitespace,
  read_int, float_tail, read_string, unescaped, string_loop, string_body, read_bool, read_null,
  expect,
}
use bomba.Json.Output.{escaped}

-- The reader stands in front of `rest`.
abbrev pub Stands : Input → Bytes → Type 0
Stands i rest = remaining i ≡ rest

pub get_elem?-Stands :
    (i : Input) (c : ℕ) (rest : Bytes)
    → Stands i (c ∷ rest)
    → get_elem? i.contents i.position ≡ some c
get_elem?-Stands i c rest h =
    sym (get_elem?-drop i.position i.contents) ∙ ap (λ (l : Bytes). get_elem? l 0) h

pub Stands-advance :
    (i : Input) (xs rest : Bytes) → Stands i (xs ++ rest) → Stands (advance (length xs) i) rest
Stands-advance i xs rest h =
    drop-drop i.position (length xs) i.contents
    ∙ ap (drop (length xs)) h
    ∙ drop-length_append xs rest

-- A character in front of the reader is got, and passed.
pub get_char-Stands :
    (i : Input) (c : ℕ) (rest : Bytes) → Stands i (c ∷ rest) → get_char i ≡ ok c (advance 1 i)
unfolding get_char
get_char-Stands i c rest h = rw (get_elem?-Stands i c rest h, get_char)

pub eat_whitespace-Stands :
    (i : Input) (c : ℕ) (rest : Bytes)
    → Stands i (c ∷ rest)
    → is_blank c ≡ false
    → eat_whitespace i ≡ ok tt (advance 0 i)
unfolding eat_whitespace
eat_whitespace-Stands i c rest h b = rw (h, blanks) (rw b)

pub blanks-Stands :
    (i : Input) (c : ℕ) (rest : Bytes)
    → Stands i (c ∷ rest)
    → is_blank c ≡ false
    → blanks (remaining i) ≡ 0
unfolding blanks
blanks-Stands i c rest h b = rw (h, blanks) (rw b)

-- What is left of a string that the writer escaped: a newline is written as a backslash and the
-- newline, which the reader drops.
pub kept : Bytes → Bytes
kept [] = []
kept (c ∷ cs) = if c == b'\n' then kept cs else c ∷ kept cs

string_loop_plain :
    (result : Bytes) (count c : ℕ) (rest : Bytes)
    → (c == b'"') ≡ false
    → (c == b'\\') ≡ false
    → string_loop result count (c ∷ rest) ≡ string_loop (result ++ (c ∷ [])) (suc count) rest
unfolding string_loop
string_loop_plain result count c [] p q = rw p
string_loop_plain result count c (d ∷ rest) p q = rw (p, q)

string_loop_escape :
    (result : Bytes) (count d : ℕ) (rest : Bytes)
    → string_loop result count (b'\\' ∷ (d ∷ rest))
      ≡ string_loop (result ++ unescaped d) (suc (suc count)) rest
unfolding string_loop
string_loop_escape result count d rest = refl

string_loop_end :
    (result : Bytes) (count : ℕ) (rest : Bytes)
    → string_loop result count (b'"' ∷ rest) ≡ some (result, suc count)
unfolding string_loop
string_loop_end result count [] = refl
string_loop_end result count (d ∷ rest) = refl

string_loop-escaped :
    (value result : Bytes) (count : ℕ) (rest : Bytes)
    → string_loop result count (escaped value ++ (b'"' ∷ rest))
      ≡ some (result ++ kept value, count + length (escaped value) + 1)
unfolding escaped kept unescaped
string_loop-escaped [] result count rest =
    ground (arith, string_loop_end result count rest, append-nil result)
string_loop-escaped (c ∷ cs) result count rest = ground (
  arith,
  string_loop_escape result count c (escaped cs ++ (b'"' ∷ rest)),
  string_loop_plain result count c (escaped cs ++ (b'"' ∷ rest)),
  string_loop-escaped cs (result ++ (c ∷ [])) (suc count) rest,
  string_loop-escaped cs (result ++ (c ∷ [])) (suc (suc count)) rest,
  string_loop-escaped cs (result ++ []) (suc (suc count)) rest,
  append_assoc result (c ∷ []) (kept cs),
  append-nil result,
)

advance-advance : (n m : ℕ) (i : Input) → advance m (advance n i) ≡ advance (n + m) i
advance-advance n m i = ground arith

string_body-Stands :
    (i : Input) (value rest : Bytes)
    → Stands i (escaped value ++ (b'"' ∷ rest))
    → string_body i ≡ ok (kept value) (advance (length (escaped value) + 1) i)
unfolding string_body
string_body-Stands i value rest h =
    rw (h, string_body) (rw (string_loop-escaped value [] 0 rest, string_body) (ground arith))

-- `readString` on what `writeString` appended gives the string without its newlines, and stands
-- behind it.
pub read_string-Stands :
    (i : Input) (value rest : Bytes)
    → Stands i (b'"' ∷ (escaped value ++ (b'"' ∷ rest)))
    → read_string i ≡ ok (kept value) (advance (length (escaped value) + 2) i)
unfolding read_string
read_string-Stands i value rest h =
    let at = Stands-advance i [] (b'"' ∷ (escaped value ++ (b'"' ∷ rest))) h in
    let behind = Stands-advance (advance 0 i) (b'"' ∷ []) (escaped value ++ (b'"' ∷ rest)) at in
    ground (
      arith,
      eat_whitespace-Stands i b'"' (escaped value ++ (b'"' ∷ rest)) h (unfold is_blank in refl),
      get_char-Stands (advance 0 i) b'"' (escaped value ++ (b'"' ∷ rest)) at,
      string_body-Stands (advance 1 (advance 0 i)) value rest behind,
    )

-- What `readInt` must find behind a number: a character that is no part of one.
abbrev pub EndsNumber : Bytes → Type 0
EndsNumber [] = ⊥
EndsNumber (c ∷ cs) = is_float_tail c ≡ false

EndsNumber-StopsDigits : (rest : Bytes) → EndsNumber rest → StopsDigits rest
unfolding is_float_tail is_digit
EndsNumber-StopsDigits [] h = tt
EndsNumber-StopsDigits (c ∷ cs) h = ground arith

to_digits-head :
    (n : ℕ) (rest : Bytes) → (c : ℕ) × (cs : Bytes) × (to_digits n ++ rest ≡ c ∷ cs) × IsDigit c
to_digits-head n rest = go (to_digits n) (length-to_digits_pos n) (to_digits-All n)
  where
    go :
        (ds : Bytes)
        → 1 ≤ length ds
        → All IsDigit ds
        → (c : ℕ) × (cs : Bytes) × (ds ++ rest ≡ c ∷ cs) × IsDigit c
    go [] l h = absurd (omega arith)
    go (d ∷ ds) l h = (d, ds ++ rest, refl, h.0)

digit-is_blank : (c : ℕ) → IsDigit c → is_blank c ≡ false
unfolding is_blank
digit-is_blank c h = ground arith

float_tail-EndsNumber :
    (c : ℕ) (rest : Bytes) → EndsNumber (c ∷ rest) → float_tail (c ∷ rest) ≡ some 0
unfolding float_tail
float_tail-EndsNumber c rest h = rw (h, float_tail)

-- Neither a blank nor a closing bracket begins an integer.
pub to_chars-head :
    (v : ℤ) (rest : Bytes)
    → (c : ℕ) × (cs : Bytes) × (to_chars v ++ rest ≡ c ∷ cs) × (is_blank c ≡ false) × (c ≢ b']')
unfolding to_chars
to_chars-head (pos n) rest =
    let (c, cs, e, d) = to_digits-head n rest in (c, cs, e, digit-is_blank c d, omega arith)
to_chars-head (negsuc n) rest =
    (b'-', to_digits (suc n) ++ rest, refl, unfold is_blank in refl, omega arith)

-- `readInt` on the characters of an int64_t gives it, and stands behind it.
pub read_int-Stands :
    (i : Input) (v : ℤ) (rest : Bytes)
    → IsInt64 v
    → EndsNumber rest
    → Stands i (to_chars v ++ rest)
    → read_int i ≡ ok v (advance (length (to_chars v)) i)
unfolding read_int
read_int-Stands i v [] ends s h = absurd s
read_int-Stands i v (r ∷ rest) ends s h =
    let (c, cs, e, blank, _) = to_chars-head v (r ∷ rest) in
    let none_eaten = blanks-Stands i c cs (h ∙ e) blank in
    let at = Stands-advance i [] (to_chars v ++ (r ∷ rest)) h in
    let read =
      ap (from_chars int64_low int64_high) at
      ∙ from_chars-to_chars v (r ∷ rest) ends (EndsNumber-StopsDigits (r ∷ rest) s) in
    let behind = Stands-advance (advance 0 i) (to_chars v) (r ∷ rest) at in
    let stops = ap float_tail behind ∙ float_tail-EndsNumber r rest s in
    ground (arith, none_eaten, read, stops)

-- The characters that must follow are there, and are passed.
expect-Stands :
    (its : Bytes) (i : Input) (rest : Bytes)
    → Stands i (its ++ rest)
    → expect its i ≡ ok tt (advance (length its) i)
unfolding expect
expect-Stands [] i rest h = ground arith
expect-Stands (it ∷ its) i rest h = ground (
  arith,
  get_elem?-Stands i it (its ++ rest) h,
  expect-Stands its (advance 1 i) rest (Stands-advance i (it ∷ []) (its ++ rest) h),
)

-- `readBool` on what `writeBool` appended.
pub read_bool-Stands :
    (i : Input) (b : Bool) (rest : Bytes)
    → Stands i ((if b then codes "true" else codes "false") ++ rest)
    → read_bool i ≡ ok b (advance (length (if b then codes "true" else codes "false")) i)
unfolding read_bool
read_bool-Stands i true rest h =
    let at = Stands-advance i [] (codes "true" ++ rest) h in
    let at_r = Stands-advance (advance 0 i) (b't' ∷ []) (codes "rue" ++ rest) at in
    ground (
      arith,
      blanks-Stands i b't' (codes "rue" ++ rest) h (unfold is_blank in refl),
      get_elem?-Stands (advance 0 i) b't' (codes "rue" ++ rest) at,
      expect-Stands (codes "rue") (advance 1 (advance 0 i)) rest at_r,
    )
read_bool-Stands i false rest h =
    let at = Stands-advance i [] (codes "false" ++ rest) h in
    let at_a = Stands-advance (advance 0 i) (b'f' ∷ []) (codes "alse" ++ rest) at in
    ground (
      arith,
      blanks-Stands i b'f' (codes "alse" ++ rest) h (unfold is_blank in refl),
      get_elem?-Stands (advance 0 i) b'f' (codes "alse" ++ rest) at,
      expect-Stands (codes "alse") (advance 1 (advance 0 i)) rest at_a,
    )

-- `readNull` on what `writeNull` appended.
pub read_null-Stands :
    (i : Input) (rest : Bytes) → Stands i (codes "null" ++ rest) → read_null i ≡ ok tt (advance 4 i)
unfolding read_null
read_null-Stands i rest h =
    let at = Stands-advance i [] (codes "null" ++ rest) h in
    ground (
      arith,
      blanks-Stands i b'n' (codes "ull" ++ rest) h (unfold is_blank in refl),
      expect-Stands (codes "null") (advance 0 i) rest at,
    )
