-- ===== src/Http/Form/Input.antt =====
-- bomba_http.hpp, HtmlMessageEncoding::Input: reading a form's members. The buffer `_demangled`, which
-- the returned views point to, is not a part of the state: every call clears it first. Reading a
-- double is not modelled.
use bomba.Base.{
  ℕ, zero, suc, ◌+◌, ◌-◌, Bool, true, false, not, ◌||◌, [], ◌∷◌, Bytes, length, get_elem?, take,
  drop, ltb, ◌==◌, within, if◌then◌else◌, none, some,
}
use bomba.Base.Charconv.{
  parsed, invalid_argument, result_out_of_range, from_chars, int64_low, int64_high,
}
use bomba.Base.Int.{ℤ}
use bomba.Base.Outcome.{
  M, ok, raise, undefined, diverges, parse_error, out_of_range, ◌>>=◌, ◌>>◌, return, throw,
}
use bomba.Core.Structured.{MemberType, type_string, type_integer, type_float}
use bomba.Http.Url.{demangle_http_response}

pub record Input : Type 0 where
  pub contents : Bytes
  pub position : ℕ
  pub object_started : Bool

-- How many characters are in front of the next one that is `stop`.
unfoldable pub run_until : ℕ → Bytes → ℕ
run_until stop [] = 0
run_until stop (c ∷ cs) = let more = suc (run_until stop cs) in if c == stop then 0 else more

unfoldable pub get_end : Input → ℕ
unfolding run_until
get_end i = i.position + run_until b'&' (drop i.position i.contents)

-- `substr` throws where the position is past the end.
unfoldable pub demangle_till_end_no_move : M Input Bytes
unfolding get_end
demangle_till_end_no_move i =
    if ltb (length i.contents) i.position
    then raise out_of_range i
    else ok (demangle_http_response 0 (take (get_end i - i.position) (drop i.position i.contents)))
        i

unfoldable pub demangle_till_end : M Input Bytes
unfolding get_end
demangle_till_end i =
    if ltb (length i.contents) i.position
    then raise out_of_range i
    else ok (demangle_http_response 0 (take (get_end i - i.position) (drop i.position i.contents)))
        (record i { position = get_end i })

-- `parseError` throws.
abbrev pub fail {κ} : {A : Type κ} → M Input A
fail = throw parse_error

-- The loop of `identifyType`. It tests the same character in every round, `demangled[_position]`.
type_loop : Bool → Bool → Bool → Bool → Bytes → MemberType
type_loop digit exponent decimal can_be_int [] = if can_be_int then type_integer else type_float
type_loop digit exponent decimal can_be_int (c ∷ cs) =
    let after_exponent = type_loop digit true decimal false cs in
    let after_decimal = type_loop digit exponent true false cs in
    let after_other = type_loop digit exponent decimal can_be_int cs in
    if c == b'e' || c == b'E'
    then (if exponent || not digit then type_string else after_exponent)
    else if c == b'.'
    then (if decimal || exponent || not digit then type_string else after_decimal)
    else if digit
    then after_other
    else type_string

-- Without a round, the character is not looked at; past the end it is undefined behaviour.
type_of : Bytes → Bytes → M Input MemberType
unfolding type_loop
type_of demangled [] i = ok type_integer i
type_of demangled (c ∷ cs) i = elim (get_elem? demangled i.position) [
  | some d ↦ ok (type_loop (within b'0' b'9' d) false false true (c ∷ cs)) i
  | none ↦ undefined
]

unsigned_part : Bytes → Bytes
unsigned_part [] = []
unsigned_part (c ∷ cs) = if c == b'-' then cs else c ∷ cs

unfoldable pub identify_type : M Input MemberType
unfolding demangle_till_end_no_move type_of unsigned_part
identify_type = do
  demangled ← demangle_till_end_no_move
  if length demangled == 0 then return type_string else type_of demangled (unsigned_part demangled)

unfoldable pub read_int : M Input ℤ
unfolding get_end from_chars
read_int i =
    let behind = record i { position = get_end i } in
    elim (from_chars int64_low int64_high
      (take (get_end i - i.position) (drop i.position i.contents))) [
        | parsed result n ↦ ok result behind
        | invalid_argument ↦ fail behind
        | result_out_of_range n ↦ fail behind
      ]

unfoldable pub read_string : M Input Bytes
unfolding demangle_till_end
read_string = demangle_till_end

unfoldable pub read_bool : M Input Bool
unfolding get_end
read_bool i = ok true (record i { position = get_end i })

unfoldable pub read_null : M Input (Unit {0})
read_null = return tt

-- What all three calls for arrays do.
unfoldable pub no_arrays {κ} : {A : Type κ} → M Input A
no_arrays = fail

-- A call of the callback, beside what it captures.
module _ {X : Type 0} (on_each : Bytes → ℕ → M (Input × X) Bool) where
  -- The name of the next member, and the position behind the character that ends it.
  unfoldable pub member_name : Input → Bytes × Input
  unfolding run_until
  member_name i =
      let start : ℕ = elim (get_elem? i.contents i.position) [
        | some c ↦ if c == b'&' then suc i.position else i.position
        | none ↦ i.position
      ] in
      let size = run_until b'=' (drop start i.contents) in
      (
        demangle_http_response 0 (take size (drop start i.contents)),
        record i { position = start + size + 1 },
      )

  -- The callback may move the reader back, so the loop has fuel. Its result is ignored.
  unfoldable pub member_loop : ℕ → ℕ → M (Input × X) (Unit {0})
  unfolding member_name
  member_loop zero index s = diverges
  member_loop (suc fuel) index (i, x) =
      let (name, behind) = member_name i in
      elim (ltb i.position (length i.contents)) [
        | true ↦
            (do
              more ← on_each name index
              λ (j, y). member_loop fuel (suc index) (record j { position = j.position + 1 }, y))
              (behind, x)
        | false ↦ ok tt (i, x)
      ]

  unfoldable pub read_object : ℕ → M (Input × X) (Unit {0})
  unfolding member_loop
  read_object fuel (i, x) =
      if i.object_started
      then raise parse_error (i, x)
      else (do member_loop fuel 0; λ (j, y). ok tt (record j { object_started = false }, y))
          (record i { object_started = true }, x)

-- `_contents[_position]` past the end is undefined behaviour.
unfoldable pub skip_object_element : M Input (Unit {0})
unfolding run_until
skip_object_element i = elim (get_elem? i.contents i.position) [
  | none ↦ undefined
  | some c ↦
      let start = if c == b'&' then suc i.position else i.position in
      ok tt (record i { position = start + run_until b'&' (drop start i.contents) })
]

unfoldable pub read_optional : M Input (Unit {0}) → M Input Bool
read_optional read_value = do read_value; return true

unfoldable pub store_position : M Input ℕ
store_position i = ok i.position i

unfoldable pub restore_position : ℕ → M Input (Unit {0})
restore_position location i = ok tt (record i { position = location })
