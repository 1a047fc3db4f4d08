-- ===== src/Http/Url.antt =====
-- bomba_http.hpp: demangleUtf8Url, demangleHttpResponse and mangleHttpResponse. The result is what a
-- call appends to `output`. A loop that jumps ahead carries the number of characters that it skips.
pub mod RoundTrip
use bomba.Base.{
  ℕ, zero, suc, ◌+◌, ◌-◌, ◌*◌, ◌/◌, ◌%◌, ◌^◌, Bool, true, false, ◌&&◌, ◌||◌, [], ◌∷◌, ◌++◌, Bytes,
  length, get_elem?, take, drop, ltb, leb, ◌==◌, within, if◌then◌else◌, Option, none, some,
}
use bomba.Base.Charconv.{
  to_digits, from_chars, FromChars, parsed, invalid_argument, result_out_of_range,
}
use bomba.Base.Int.{ℤ, pos, negsuc}
use bomba.Base.Text.{codes}

-- The value of a hexadecimal digit.
unfoldable pub hex_value : ℕ → Option ℕ
hex_value c =
    if within b'0' b'9' c
    then some (c - b'0')
    else if within b'a' b'f' c
    then some (c - b'a' + 10)
    else if within b'A' b'F' c
    then some (c - b'A' + 10)
    else none

-- `std::from_chars` of two characters in base 16 into an unsigned zero.
unfoldable pub hex_pair : ℕ → ℕ → ℕ
unfolding hex_value
hex_pair a b = elim (hex_value a) [
  | none ↦ 0
  | some x ↦ elim (hex_value b) [ none ↦ x | some y ↦ 16 * x + y ]
]

-- The same into a signed zero, which a minus sign may begin.
unfoldable pub signed_hex_pair : ℕ → ℕ → ℤ
unfolding hex_value hex_pair
signed_hex_pair a b =
    if a == b'-'
    then elim (hex_value b) [ none ↦ pos 0 | some y ↦ if y == 0 then pos 0 else negsuc (y - 1) ]
    else pos (hex_pair a b)

-- The escape whose percent sign is in front of the characters.
hex_pair_of : Bytes → Option ℕ
unfolding hex_pair
hex_pair_of [] = none
hex_pair_of (a ∷ []) = none
hex_pair_of (a ∷ b ∷ cs) = some (hex_pair a b)

unfoldable pub demangle_utf8_url : ℕ → Bytes → Bytes
unfolding hex_pair_of
demangle_utf8_url skip [] = []
demangle_utf8_url (suc skip) (c ∷ cs) = demangle_utf8_url skip cs
demangle_utf8_url zero (c ∷ cs) = elim (c == b'+') [
  | true ↦ b' ' ∷ demangle_utf8_url 0 cs
  | false ↦ elim (c == b'%') [
    | true ↦ elim (hex_pair_of cs) [ none ↦ [] | some escaped ↦ escaped ∷ demangle_utf8_url 2 cs ]
    | false ↦ c ∷ demangle_utf8_url 0 cs
  ]
]

-- `utf8Encode`; a negative value is cut to its last byte.
unfoldable pub utf8_encode : ℤ → Bytes
utf8_encode (negsuc n) = (255 - n % 256) ∷ []
utf8_encode (pos value) =
    let last = 128 + value % 64 in
    let middle = 128 + value / 2 ^ 6 % 64 in
    if ltb value 0x80
    then value ∷ []
    else if leb value 0x800
    then (192 + value / 2 ^ 6) % 256 ∷ last ∷ []
    else if leb 0x10000 value
    then (240 + value / 2 ^ 18) % 256 ∷ (128 + value / 2 ^ 12 % 64) ∷ middle ∷ last ∷ []
    else (224 + value / 2 ^ 12) % 256 ∷ middle ∷ last ∷ []

-- `urlDecode` of the index that the characters begin at.
url_decode : Bytes → ℤ
unfolding signed_hex_pair
url_decode (c ∷ a ∷ b ∷ cs) = signed_hex_pair a b
url_decode _ = pos 0

-- How many decimal digits are in front.
digit_run : Bytes → ℕ
digit_run [] = 0
digit_run (c ∷ cs) = let more = suc (digit_run cs) in if within b'0' b'9' c then more else 0

ends_entity : Bytes → Bool
ends_entity (a ∷ b ∷ c ∷ cs) = a == b'%' && b == b'3' && (c == b'b' || c == b'B')
ends_entity _ = false

is_code : ℕ → ℤ → Bool
is_code c (pos n) = n == c
is_code c (negsuc n) = false

-- `std::from_chars` into an int, which keeps its value on an error.
or_kept : FromChars → ℤ → ℤ
or_kept (parsed value n) old = value
or_kept invalid_argument old = old
or_kept (result_out_of_range n) old = old

-- What an escape stands for, at the characters from its percent sign on, and how many characters
-- behind that sign belong to it: two, or those of a numeric entity in escapes.
decoded_at : Bytes → ℤ × ℕ
unfolding url_decode digit_run ends_entity is_code or_kept from_chars
decoded_at text =
    let one = url_decode text in
    let digits = digit_run (drop 6 text) in
    if is_code b'&' one
      && ltb 8 (length text)
      && is_code b'#' (url_decode (drop 3 text))
      && leb 1 digits
      && ends_entity (drop (6 + digits) text)
    then (or_kept (from_chars (2 ^ 31) (2 ^ 31 - 1) (take digits (drop 6 text))) one, 8 + digits)
    else (one, 2)

unfoldable pub demangle_http_response : ℕ → Bytes → Bytes
unfolding decoded_at utf8_encode
demangle_http_response skip [] = []
demangle_http_response (suc skip) (c ∷ cs) = demangle_http_response skip cs
demangle_http_response zero (c ∷ cs) = elim (c == b'+') [
  | true ↦ b' ' ∷ demangle_http_response 0 cs
  | false ↦ elim (c == b'%') [
    | true ↦
        let (value, behind) = decoded_at (c ∷ cs) in
        utf8_encode value ++ demangle_http_response behind cs
    | false ↦ c ∷ demangle_http_response 0 cs
  ]
]

unfoldable pub contains : ℕ → Bytes → Bool
contains x [] = false
contains x (c ∷ cs) = c == x || contains x cs

-- The characters that need no escape.
unfoldable pub is_unreserved : ℕ → Bool
unfolding contains
is_unreserved letter =
    within b'a' b'z' letter
    || within b'A' b'Z' letter
    || within b'0' b'9' letter
    || contains letter (codes ".*-_^\\~'`|<>[]{}()")

unfoldable pub hex_digit : ℕ → ℕ
hex_digit part = if ltb part 10 then b'0' + part else b'a' + part - 10

unfoldable pub encode_one : ℕ → Bytes
unfolding is_unreserved hex_digit
encode_one letter =
    if is_unreserved letter
    then letter ∷ []
    else b'%' ∷ hex_digit (letter / 16 % 16) ∷ hex_digit (letter % 16) ∷ []

-- The length that the first byte of a character announces, and the bits that it carries.
unfoldable pub utf8_start : ℕ → ℕ × ℕ
utf8_start letter =
    if letter / 32 == 6
    then (2, letter % 32)
    else if letter / 16 == 14
    then (3, letter % 16)
    else (4, letter % 8)

unfoldable pub utf8_continue : ℕ → Bytes → ℕ
utf8_continue value [] = value
utf8_continue value (c ∷ cs) = utf8_continue (64 * value + c % 64) cs

-- A character above 0xff becomes a numeric entity.
encode_value : ℕ → Bytes
unfolding encode_one to_digits
encode_value value =
    if ltb 0xff value
    then encode_one b'&' ++ encode_one b'#' ++ to_digits value ++ encode_one b';'
    else encode_one value

unfoldable pub mangle_http_response : ℕ → Bytes → Bytes
unfolding encode_value utf8_start utf8_continue
mangle_http_response skip [] = []
mangle_http_response (suc skip) (c ∷ cs) = mangle_http_response skip cs
mangle_http_response zero (c ∷ cs) = elim (c == b' ') [
  | true ↦ b'+' ∷ mangle_http_response 0 cs
  | false ↦ elim (leb c 0x7f) [
    | true ↦ encode_one c ++ mangle_http_response 0 cs
    | false ↦
        let (size, bits) = utf8_start c in
        elim (ltb (length cs) (size - 1)) [
          | true ↦ []
          | false ↦
              encode_value (utf8_continue bits (take (size - 1) cs))
              ++ mangle_http_response (size - 1) cs
        ]
  ]
]
