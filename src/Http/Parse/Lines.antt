-- ===== src/Http/Parse/Lines.antt =====
-- The lines of a complete header, one by one.
use bomba.Base.{
  ℕ, suc, ◌+◌, Bool, true, false, not, [], ◌∷◌, ◌++◌, Bytes, length, length-append, length-drop,
  take-length_append, take, drop, ◌==◌, none, ◌≡◌, refl, ap, ◌∙◌, arith, All,
}
use bomba.Base.Outcome.{ok}
use bomba.Http.Parse.{
  ParseState, Readers, run_length, lower, lower_name, is_name_end, use_data, value_at,
}

-- A walk over characters that pass ends at one that does not.
pub run_length-append :
    (test : ℕ → Bool) (xs rest : Bytes) (c : ℕ)
    → All (λ x. test x ≡ true) xs
    → test c ≡ false
    → run_length test (xs ++ (c ∷ rest)) ≡ length xs
unfolding run_length
run_length-append test [] rest c h n = rw (n, run_length)
run_length-append test (x ∷ xs) rest c h n =
    rw (h.0, run_length) (ap suc (run_length-append test xs rest c h.1 n))

-- The characters of a name in lower case.
abbrev pub lowered : Bytes → Bytes
lowered [] = []
lowered (c ∷ cs) = lower c ∷ lowered cs

pub length-lowered : (xs : Bytes) → length (lowered xs) ≡ length xs
length-lowered [] = refl
length-lowered (x ∷ xs) = ap suc (length-lowered xs)

abbrev pub IsNameChar : ℕ → Type 0
IsNameChar c = not (is_name_end c) ≡ true

lower_name-append :
    (name rest : Bytes) (c : ℕ)
    → All IsNameChar name
    → is_name_end c ≡ true
    → lower_name (name ++ (c ∷ rest)) ≡ lowered name ++ (c ∷ rest)
unfolding lower_name lower
lower_name-append [] rest c h e = rw (e, lower_name)
lower_name-append (x ∷ xs) rest c h e = ground (arith, h.0, lower_name-append xs rest c h.1 e)

module _ {X : Type 0} (readers : Readers X) where
  value_at_lem :
      (start : ℕ) (name value rest : Bytes) (r : ℕ) (s : ParseState X)
      → All (λ c. not (c == b'\r') ≡ true) value
      → drop start s.input ≡ value ++ (b'\r' ∷ (b'\n' ∷ (r ∷ rest)))
      → value_at readers start name s
        ≡ ok none (record (use_data readers name value (start, length value) s) {
          parse_position = start + length value + 2;
        })
  unfolding value_at
  value_at_lem start name value rest r s h at =
      let walked =
        ap (run_length (λ c. not (c == b'\r'))) at
        ∙ run_length-append (λ c. not (c == b'\r')) value (b'\n' ∷ (r ∷ rest)) b'\r' h refl in
      let taken =
        ap (take (length value)) at ∙ take-length_append value (b'\r' ∷ (b'\n' ∷ (r ∷ rest))) in
      ground (
        arith,
        walked,
        taken,
        length-drop start s.input,
        ap (λ (l : Bytes). length l) at,
        length-append value (b'\r' ∷ (b'\n' ∷ (r ∷ rest))),
      )

-- A walk over characters that all pass.
pub run_length-all :
    (test : ℕ → Bool) (xs : Bytes) → All (λ x. test x ≡ true) xs → run_length test xs ≡ length xs
unfolding run_length
run_length-all test [] h = refl
run_length-all test (x ∷ xs) h = rw (h.0, run_length) (ap suc (run_length-all test xs h.1))
