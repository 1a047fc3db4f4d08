-- ===== src/Base/Charconv/RoundTrip.antt =====
-- `from_chars` reads back what `to_chars` wrote, and how many characters that is.
use bomba.Base.{
  ℕ, zero, suc, ◌+◌, ◌-◌, ◌*◌, ◌/◌, ◌%◌, ◌^◌, ◌≤◌, ◌<◌, ◌≡◌, refl, ap, ◌∙◌, inl, inr, false, [],
  ◌∷◌, ◌++◌, Bytes, length, arith, ltb, Bool-cases, All,
}
use bomba.Base.Int.{ℤ, pos, negsuc}
use native.Mathlib.Nat.{pow-suc}
use bomba.Base.Charconv.{
  is_digit, digits_onto, to_digits, to_chars, scan_digits, parsed, ranged, from_chars, int64_low,
  int64_high, IsInt64, IsDigit,
}

-- The value of digits behind `value`.
abbrev pub horner : ℕ → Bytes → ℕ
horner value [] = value
horner value (c ∷ cs) = horner (value * 10 + (c - b'0')) cs

horner-append : (xs ys : Bytes) (value : ℕ) → horner value (xs ++ ys) ≡ horner (horner value xs) ys
horner-append [] ys value = refl
horner-append (x ∷ xs) ys value = horner-append xs ys (value * 10 + (x - b'0'))

digits_onto-horner :
    (fuel n : ℕ) (behind : Bytes)
    → n < fuel
    → horner 0 (digits_onto fuel n behind) ≡ horner n behind
unfolding digits_onto
digits_onto-horner zero n behind h = absurd (omega arith)
digits_onto-horner (suc fuel) n behind h = elim (Bool-cases (ltb n 10)) [
  | inl small ↦ rw (small, horner) (ap (λ v. horner v behind) (omega arith))
  | inr large ↦
      rw (large, horner)
        (digits_onto-horner fuel (n / 10) ((b'0' + n % 10) ∷ behind) (ground arith)
          ∙ ap (λ v. horner v behind) (omega arith))
]

digits_onto-All :
    (fuel n : ℕ) (behind : Bytes) → All IsDigit behind → All IsDigit (digits_onto fuel n behind)
unfolding digits_onto
digits_onto-All zero n behind h = h
digits_onto-All (suc fuel) n behind h = elim (Bool-cases (ltb n 10)) [
  | inl small ↦ rw (small, All) ((omega arith, ground arith), h)
  | inr large ↦ rw (large, All) (digits_onto-All fuel (n / 10) _ ((omega arith, omega arith), h))
]

-- A number has a digit at least, and at most `k` of them if it is below the power of ten.
digits_onto-length :
    (fuel n k : ℕ) (behind : Bytes)
    → n < fuel
    → n < 10 ^ suc k
    → (1 + length behind ≤ length (digits_onto fuel n behind))
      × (length (digits_onto fuel n behind) ≤ suc k + length behind)
unfolding digits_onto
digits_onto-length zero n k behind h b = absurd (omega arith)
digits_onto-length (suc fuel) n zero behind h b = ground arith
digits_onto-length (suc fuel) n (suc k) behind h b = elim (Bool-cases (ltb n 10)) [
  | inl small ↦ rw (small, length) (omega arith, omega arith)
  | inr large ↦
      rw (large, length)
        (let ih =
            digits_onto-length fuel (n / 10) k ((b'0' + n % 10) ∷ behind) (ground arith)
              (omega (arith, pow-suc 10 (suc k))) in
          (omega (arith, ih.0), omega (arith, ih.1)))
]

pub to_digits-value : (n : ℕ) → horner 0 (to_digits n) ≡ n
unfolding to_digits
to_digits-value n = digits_onto-horner (suc n) n [] (omega arith)

pub to_digits-All : (n : ℕ) → All IsDigit (to_digits n)
unfolding to_digits
to_digits-All n = digits_onto-All (suc n) n [] tt

pub length-to_digits :
    (n k : ℕ) → n < 10 ^ suc k → (1 ≤ length (to_digits n)) × (length (to_digits n) ≤ suc k)
unfolding to_digits
length-to_digits n k h =
    let fits = digits_onto-length (suc n) n k [] (omega arith) h in
    (omega (arith, fits.0), omega (arith, fits.1))

-- A number has a digit at least.
digits_onto_pos :
    (fuel n : ℕ) (behind : Bytes)
    → n < fuel
    → 1 + length behind ≤ length (digits_onto fuel n behind)
unfolding digits_onto
digits_onto_pos zero n behind h = absurd (omega arith)
digits_onto_pos (suc fuel) n behind h = elim (Bool-cases (ltb n 10)) [
  | inl small ↦ rw (small, length) (omega arith)
  | inr large ↦
      rw (large, length)
        (omega (arith, digits_onto_pos fuel (n / 10) ((b'0' + n % 10) ∷ behind) (ground arith)))
]

pub length-to_digits_pos : (n : ℕ) → 1 ≤ length (to_digits n)
unfolding to_digits
length-to_digits_pos n = omega (arith, digits_onto_pos (suc n) n [] (omega arith))

ten_power_pos : (k : ℕ) → 1 ≤ 10 ^ k
ten_power_pos zero = omega arith
ten_power_pos (suc k) = omega (arith, pow-suc 10 k, ten_power_pos k)

-- A number of the power of ten has more than `k` digits.
digits_onto-length_ge :
    (fuel n k : ℕ) (behind : Bytes)
    → n < fuel
    → 10 ^ k ≤ n
    → suc k + length behind ≤ length (digits_onto fuel n behind)
unfolding digits_onto
digits_onto-length_ge zero n k behind h b = absurd (omega arith)
digits_onto-length_ge (suc fuel) n zero behind h b = elim (Bool-cases (ltb n 10)) [
  | inl small ↦ rw (small, length) (omega arith)
  | inr large ↦
      rw (large, length)
        (omega (
          arith,
          digits_onto-length_ge fuel (n / 10) 0 ((b'0' + n % 10) ∷ behind) (ground arith)
              (ground arith),
        ))
]
digits_onto-length_ge (suc fuel) n (suc k) behind h b = elim (Bool-cases (ltb n 10)) [
  | inl small ↦ absurd (ground (arith, pow-suc 10 k, ten_power_pos k))
  | inr large ↦
      rw (large, length)
        (omega (
          arith,
          digits_onto-length_ge fuel (n / 10) k ((b'0' + n % 10) ∷ behind) (ground arith)
              (omega (arith, pow-suc 10 k)),
        ))
]

pub length-to_digits_ge : (n k : ℕ) → 10 ^ k ≤ n → suc k ≤ length (to_digits n)
unfolding to_digits
length-to_digits_ge n k h = omega (arith, digits_onto-length_ge (suc n) n k [] (omega arith) h)

-- Digits are read to their end, and what is no digit stops the reading.
abbrev pub StopsDigits : Bytes → Type 0
StopsDigits [] = Unit
StopsDigits (c ∷ cs) = is_digit c ≡ false

scan_digits-append :
    (ds rest : Bytes) (value count : ℕ)
    → All IsDigit ds
    → StopsDigits rest
    → scan_digits value count (ds ++ rest) ≡ (horner value ds, count + length ds)
unfolding scan_digits
scan_digits-append [] [] value count h s = ground arith
scan_digits-append [] (c ∷ cs) value count h s = ground arith
scan_digits-append (d ∷ ds) rest value count h s =
    ground (arith, scan_digits-append ds rest (value * 10 + (d - b'0')) (suc count) h.1 s)

from_chars_pos :
    (ds rest : Bytes) (n : ℕ)
    → All IsDigit ds
    → 1 ≤ length ds
    → horner 0 ds ≡ n
    → n < 2 ^ 63
    → StopsDigits rest
    → from_chars int64_low int64_high (ds ++ rest) ≡ parsed (pos n) (length ds)
unfolding from_chars ranged
from_chars_pos [] rest n h l e b s = absurd (omega arith)
from_chars_pos (d ∷ ds) rest n h l e b s = ground (arith, scan_digits-append (d ∷ ds) rest 0 0 h s)

from_chars_neg :
    (ds rest : Bytes) (n : ℕ)
    → All IsDigit ds
    → 1 ≤ length ds
    → horner 0 ds ≡ suc n
    → n < 2 ^ 63
    → StopsDigits rest
    → from_chars int64_low int64_high (b'-' ∷ (ds ++ rest)) ≡ parsed (negsuc n) (suc (length ds))
unfolding from_chars ranged
from_chars_neg [] rest n h l e b s = absurd (omega arith)
from_chars_neg (d ∷ ds) rest n h l e b s = ground (arith, scan_digits-append (d ∷ ds) rest 0 0 h s)

-- `from_chars` reads back what `to_chars` wrote of an int64_t, and stops behind it.
pub from_chars-to_chars :
    (v : ℤ) (rest : Bytes)
    → IsInt64 v
    → StopsDigits rest
    → from_chars int64_low int64_high (to_chars v ++ rest) ≡ parsed v (length (to_chars v))
unfolding to_chars
from_chars-to_chars (pos n) rest h s =
    from_chars_pos (to_digits n) rest n (to_digits-All n) (length-to_digits_pos n)
      (to_digits-value n) h s
from_chars-to_chars (negsuc n) rest h s =
    from_chars_neg (to_digits (suc n)) rest n (to_digits-All (suc n)) (length-to_digits_pos (suc n))
      (to_digits-value (suc n)) h s
