-- ===== src/Json/Input.antt =====
-- bomba_json.hpp, BasicJson::Input: a JSON reader over a text, at a position. `_resultBuffer` holds
-- only the string last returned, which is a value here. Forming the address of the end of the text
-- is read as that address. Reading a double is not modelled.
use bomba.Base.{
  ℕ, suc, ◌+◌, Bool, true, false, not, ◌||◌, [], ◌∷◌, ◌++◌, Bytes, length, get_elem?, drop, ltb,
  ◌==◌, within, if◌then◌else◌, Option, none, some,
}
use bomba.Base.Charconv.{
  parsed, invalid_argument, result_out_of_range, from_chars, int64_low, int64_high,
}
use bomba.Base.Int.{ℤ}
use bomba.Base.Outcome.{
  M, ok, raise, diverges, parse_error, remote_error, ◌>>=◌, ◌>>◌, return, throw,
}
use bomba.Base.Text.{codes}
use bomba.Core.Structured.{
  MemberType, type_integer, type_float, type_string, type_boolean, type_null, type_array,
  type_object, type_invalid,
}

pub record Input : Type 0 where
  pub contents : Bytes
  pub position : ℕ
  pub good : Bool

-- What the position has not reached.
abbrev pub remaining : Input → Bytes
remaining i = drop i.position i.contents

abbrev pub advance : ℕ → Input → Input
advance n i = record i { position = i.position + n }

-- `remoteError` throws, so the line behind it is not reached.
abbrev pub fail {κ} : {A : Type κ} → M Input A
fail = throw remote_error

end_of_input {κ} : {A : Type κ} → M Input A
end_of_input i = raise parse_error (record i { good = false })

-- `endOfInput` throws the first time; once `good` is gone, a character past the end is a zero.
unfoldable pub get_char : M Input ℕ
unfolding end_of_input
get_char i = elim (get_elem? i.contents i.position) [
  | some c ↦ ok c (advance 1 i)
  | none ↦ if i.good then end_of_input i else ok 0 i
]

-- `peekChar<true>`
unfoldable pub peek_char : M Input ℕ
unfolding end_of_input
peek_char i = elim (get_elem? i.contents i.position) [ some c ↦ ok c i | none ↦ end_of_input i ]

unfoldable pub is_blank : ℕ → Bool
is_blank c = c == b' ' || (c == b'\t' || (c == b'\n' || (c == b'\r' || (c == b',' || c == b':'))))

-- How many blanks the text begins with.
unfoldable pub blanks : Bytes → ℕ
unfolding is_blank
blanks [] = 0
blanks (c ∷ cs) = let more = suc (blanks cs) in if is_blank c then more else 0

unfoldable pub eat_whitespace : M Input (Unit {0})
unfolding blanks
eat_whitespace i = ok tt (advance (blanks (remaining i)) i)

-- The loop of `identifyType` over a number.
unfoldable pub number_type : Bytes → MemberType
number_type [] = type_integer
number_type (c ∷ cs) =
    let more = number_type cs in
    if c == b'.' || (c == b'e' || c == b'E')
    then type_float
    else if ltb c b'0' || ltb b'9' c
    then type_integer
    else more

unfoldable pub type_at : Bytes → MemberType
unfolding number_type
type_at [] = type_invalid
type_at (c ∷ cs) =
    if c == b'"'
    then type_string
    else if c == b'-' || within b'0' b'9' c
    then number_type (c ∷ cs)
    else if c == b'n'
    then type_null
    else if c == b't' || c == b'f'
    then type_boolean
    else if c == b'['
    then type_array
    else if c == b'{'
    then type_object
    else type_invalid

unfoldable pub identify_type : M Input MemberType
unfolding eat_whitespace type_at
identify_type = do eat_whitespace; λ i. ok (type_at (remaining i)) i

unfoldable pub is_float_tail : ℕ → Bool
is_float_tail c = within b'0' b'9' c || (c == b'.' || (c == b'e' || (c == b'E' || c == b'-')))

-- The characters that "deal with floats sent instead of integers"; `none` is the end of the text.
unfoldable pub float_tail : Bytes → Option ℕ
unfolding is_float_tail
float_tail [] = none
float_tail (c ∷ cs) = elim (is_float_tail c) [
  | true ↦ elim (float_tail cs) [ some n ↦ some (suc n) | none ↦ none ]
  | false ↦ some 0
]

-- The loop that ends `readInt`; it peeks, so it throws at the end of the text.
skip_float_tail : ℤ → M Input ℤ
unfolding end_of_input float_tail
skip_float_tail result i = elim (float_tail (remaining i)) [
  | some n ↦ ok result (advance n i)
  | none ↦ end_of_input (record i { position = length i.contents })
]

unfoldable pub read_int : M Input ℤ
unfolding eat_whitespace skip_float_tail
read_int = do
  eat_whitespace
  λ i. elim (from_chars int64_low int64_high (remaining i)) [
    | parsed result n ↦ skip_float_tail result (advance n i)
    | invalid_argument ↦ fail i
    | result_out_of_range n ↦ fail (advance n i)
  ]

-- The three escapes that `readString` knows; another escaped character is dropped.
unfoldable pub unescaped : ℕ → Bytes
unescaped c =
    if c == b'\\'
    then b'\\' ∷ []
    else if c == b'"'
    then b'"' ∷ []
    else if c == b'n'
    then b'\n' ∷ []
    else []

-- The loop of `readString`: the string up to the closing quote, and how many characters it took.
-- `none` is the end of the text.
unfoldable pub string_loop : Bytes → ℕ → Bytes → Option (Bytes × ℕ)
unfolding unescaped
string_loop result count [] = none
string_loop result count (c ∷ []) = if c == b'"' then some (result, suc count) else none
string_loop result count (c ∷ (d ∷ cs)) =
    let escape = string_loop (result ++ unescaped d) (suc (suc count)) cs in
    let plain = string_loop (result ++ (c ∷ [])) (suc count) (d ∷ cs) in
    if c == b'"' then some (result, suc count) else if c == b'\\' then escape else plain

-- Past the end with `good` gone, `getChar` gives zeros for ever.
unfoldable pub string_body : M Input Bytes
unfolding end_of_input string_loop
string_body i = elim (string_loop [] 0 (remaining i)) [
  | some (result, count) ↦ ok result (advance count i)
  | none ↦ if i.good then end_of_input (record i { position = length i.contents }) else diverges
]

unfoldable pub read_string : M Input Bytes
unfolding eat_whitespace get_char string_body
read_string = do eat_whitespace; quote ← get_char; if quote == b'"' then string_body else fail

-- A loop over the characters that must follow.
unfoldable pub expect : Bytes → M Input (Unit {0})
unfolding get_char
expect [] = return tt
expect (it ∷ its) = do reading_char ← get_char; if it == reading_char then expect its else fail

unfoldable pub read_bool : M Input Bool
unfolding eat_whitespace get_char expect
read_bool = do
  eat_whitespace
  reading_char ← get_char
  if reading_char == b't'
      then (do expect (codes "rue"); return true)
      else if reading_char == b'f'
      then (do expect (codes "alse"); return false)
      else fail

unfoldable pub read_null : M Input (Unit {0})
unfolding eat_whitespace expect
read_null = do eat_whitespace; expect (codes "null")

unfoldable pub start_reading_array : M Input (Unit {0})
unfolding eat_whitespace get_char
start_reading_array = do
  eat_whitespace
  reading_char ← get_char
  if reading_char == b'[' then return tt else fail

unfoldable pub next_array_element : M Input Bool
unfolding eat_whitespace peek_char
next_array_element = do eat_whitespace; c ← peek_char; return (not (c == b']'))

unfoldable pub end_reading_array : M Input (Unit {0})
unfolding eat_whitespace get_char
end_reading_array = do eat_whitespace; c ← get_char; return tt
