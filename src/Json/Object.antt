-- ===== src/Json/Object.antt =====
-- bomba_json.hpp, BasicJson::Input: reading an object's members, skipping a value, and positions.
use bomba.Base.{
  ℕ, zero, suc, Bool, true, false, ◌||◌, ◌&&◌, [], ◌∷◌, Bytes, length, ◌==◌, if◌then◌else◌,
}
use bomba.Base.Outcome.{
  M, ok, raise, undefined, diverges, parse_error, remote_error, ◌>>=◌, ◌>>◌, return,
}
use bomba.Core.Structured.{type_null}
use bomba.Json.Input.{
  Input, remaining, advance, get_char, peek_char, eat_whitespace, identify_type, read_string,
  read_null,
}

-- A call on the reader, made beside what the callback of `readObject` captures.
abbrev pub lift : {X A : Type 0} → M Input A → M (Input × X) A
lift m (i, x) = elim (m i) [
  | ok a j ↦ ok a (j, x)
  | raise e j ↦ raise e (j, x)
  | undefined ↦ undefined
  | diverges ↦ diverges
]

module _ {X : Type 0} (on_each : Bytes → ℕ → M (Input × X) Bool) where
  abbrev pub after_brace : Bool → M (Input × X) (Unit {0})
  after_brace true = return tt
  after_brace false = λ (i, x). raise remote_error (i, x)

  -- The callback may move the reader back, so the loop has fuel.
  unfoldable pub member_loop : ℕ → ℕ → M (Input × X) (Unit {0})
  member_loop zero index = λ _. diverges
  member_loop (suc fuel) index = do
    lift eat_whitespace
    c ← lift peek_char
    elim (c == b'}') [
      | true ↦ return tt
      | false ↦ (do
        name ← lift read_string
        more ← on_each name index
        elim more [ true ↦ member_loop fuel (suc index) | false ↦ return tt ])
    ]

  unfoldable pub read_object : ℕ → M (Input × X) (Unit {0})
  unfolding member_loop
  read_object fuel = do
    lift eat_whitespace
    brace ← lift get_char
    after_brace (brace == b'{')
    member_loop fuel 0
    lift eat_whitespace
    c ← lift get_char
    return tt

-- Where `skipObjectElement` is: within a string, or not.
pub data SkipMode : Type 0 where
  outside in_string : SkipMode

pub data Skip : Type 0 where
  skipped : ℕ → Skip
  unfinished : Skip

-- The loop of `skipObjectElement` over what the position has not reached. A string is left at its
-- first quote or backslash, for `_contents[_position - 1]` is the character just read. Outside of
-- a string the loop ends with the text; a closing bracket at depth 0 or 1 is eaten, and ends it.
unfoldable pub skip_loop : SkipMode → ℕ → ℕ → Bytes → Skip
skip_loop outside depth count [] = skipped count
skip_loop in_string depth count [] = unfinished
skip_loop in_string depth count (c ∷ cs) =
    let left = skip_loop outside depth (suc count) cs in
    let within = skip_loop in_string depth (suc count) cs in
    if c == b'"' || c == b'\\' then left else within
skip_loop outside depth count (c ∷ cs) =
    let deeper = skip_loop outside (suc depth) (suc count) cs in
    let higher : Skip = elim depth [
      | zero ↦ skipped (suc count)
      | suc zero ↦ skipped (suc count)
      | suc (suc d) ↦ skip_loop outside (suc d) (suc count) cs
    ] in
    let string = skip_loop in_string depth (suc count) cs in
    let other = skip_loop outside depth (suc count) cs in
    if c == b'{' || c == b'['
    then deeper
    else if c == b'}' || c == b']'
    then higher
    else if depth == 0 && (c == b' ' || (c == b'\t' || (c == b'\r' || (c == b'\n' || c == b','))))
    then skipped count
    else if c == b'"'
    then string
    else other

skip_value : M Input (Unit {0})
unfolding skip_loop
skip_value i = elim (skip_loop outside 0 0 (remaining i)) [
  | skipped count ↦ ok tt (advance count i)
  | unfinished ↦
      if i.good
      then raise parse_error (record i { position = length i.contents; good = false })
      else diverges
]

unfoldable pub skip_object_element : M Input (Unit {0})
unfolding eat_whitespace peek_char skip_value
skip_object_element = do eat_whitespace; c ← peek_char; skip_value

unfoldable pub read_optional : {X : Type 0} → M (Input × X) (Unit {0}) → M (Input × X) Bool
unfolding identify_type read_null
read_optional read_value = do
  t ← lift identify_type
  elim t [ type_null ↦ (do lift read_null; return false) | _ ↦ (do read_value; return true) ]

unfoldable pub store_position : M Input ℕ
store_position i = ok i.position i

unfoldable pub restore_position : ℕ → M Input (Unit {0})
restore_position location i = ok tt (record i { position = location })
