-- ===== src/Base/Charconv.antt =====
-- `std::to_chars` and `std::from_chars` of the C++ standard library on integers, as the code uses
-- them: a number's digits in a base up to 16, lowest letters for digits above nine.
pub mod RoundTrip
use bomba.Base.{
  ℕ, zero, suc, ◌+◌, ◌-◌, ◌*◌, ◌/◌, ◌%◌, ◌^◌, ◌≤◌, ◌<◌, ◌≡◌, refl, sym, ap, ◌∙◌, ◌⊎◌, inl, inr,
  Bool, true, false, ◌||◌, List, [], ◌∷◌, ◌++◌, Bytes, length, length-append, arith, ltb, leb, ◌==◌,
  within, if◌then◌else◌, Bool-cases, Option, none, some, append_assoc, All,
}
use bomba.Base.Int.{ℤ, pos, negsuc}

unfoldable pub is_digit : ℕ → Bool
is_digit c = within b'0' b'9' c

-- The digits of `n`, written in front of `behind`.
pub digits_onto : ℕ → ℕ → Bytes → Bytes
digits_onto zero n behind = behind
digits_onto (suc fuel) n behind = elim (ltb n 10) [
  | true ↦ (b'0' + n) ∷ behind
  | false ↦ digits_onto fuel (n / 10) ((b'0' + n % 10) ∷ behind)
]

-- `n / 10` falls, so `n + 1` rounds are enough.
unfoldable pub to_digits : ℕ → Bytes
unfolding digits_onto
to_digits n = digits_onto (suc n) n []

-- `std::to_chars(first, last, value)` with room for all.
unfoldable pub to_chars : ℤ → Bytes
unfolding to_digits
to_chars (pos n) = to_digits n
to_chars (negsuc n) = b'-' ∷ to_digits (suc n)

-- The digits that the bytes begin with: their value behind `value`, and how many.
unfoldable pub scan_digits : ℕ → ℕ → Bytes → ℕ × ℕ
unfolding is_digit
scan_digits value count [] = (value, count)
scan_digits value count (c ∷ cs) =
    let more = scan_digits (value * 10 + (c - b'0')) (suc count) cs in
    if is_digit c then more else (value, count)

-- What `std::from_chars` reports: the value, and how far `ptr` is from `first`. The target is left
-- as it was on an error.
pub data FromChars : Type 0 where
  parsed : ℤ → ℕ → FromChars
  invalid_argument : FromChars
  result_out_of_range : ℕ → FromChars

abbrev minus : ℕ → ℤ
minus zero = pos 0
minus (suc n) = negsuc n

-- The value if it lies between -low and high.
ranged : ℕ → ℕ → Bool → ℕ × ℕ → FromChars
ranged low high negative (value, zero) = invalid_argument
ranged low high false (value, suc n) =
    if leb value high then parsed (pos value) (suc n) else result_out_of_range (suc n)
ranged low high true (value, suc n) =
    if leb value low then parsed (minus value) (suc (suc n)) else result_out_of_range (suc (suc n))

-- `std::from_chars(first, last, value)` for a signed integer type of values -low to high.
unfoldable pub from_chars : ℕ → ℕ → Bytes → FromChars
unfolding ranged scan_digits
from_chars low high [] = invalid_argument
from_chars low high (c ∷ cs) =
    if c == b'-'
    then ranged low high true (scan_digits 0 0 cs)
    else ranged low high false (scan_digits 0 0 (c ∷ cs))

-- Values of the types `int64_t` and `int`.
abbrev pub int64_low : ℕ
int64_low = 2 ^ 63

abbrev pub int64_high : ℕ
int64_high = 2 ^ 63 - 1

abbrev pub IsInt64 : ℤ → Type 0
IsInt64 (pos n) = n < 2 ^ 63
IsInt64 (negsuc n) = n < 2 ^ 63

abbrev pub IsDigit : ℕ → Type 0
IsDigit c = (b'0' ≤ c) × (c ≤ b'9')
