-- ===== src/Json/RoundTrip/Gaps.antt =====
-- The brackets of an array and the blanks between its elements, written and read.
use bomba.Base.{
  ℕ, zero, suc, true, false, not, [], ◌∷◌, ◌++◌, Bytes, length, replicate, ◌==◌, ◌≡◌, refl, ap, ◌∙◌,
  arith, append_assoc, All,
}
use bomba.Base.Int.{ℤ, pos, incr, decr, pos_part}
use bomba.Base.Outcome.{ok}
use bomba.Json.Input.{
  Input, advance, is_blank, blanks, start_reading_array, next_array_element, end_reading_array,
}
use bomba.Json.Output.{
  Output, new_line, start_writing_array, introduce_array_element, end_writing_array,
}
use bomba.Json.RoundTrip.{Stands, Stands-advance, get_elem?-Stands, blanks-Stands}

abbrev pub tabs : ℤ → Bytes
tabs d = replicate (pos_part d) b'\t'

abbrev pub comma : ℕ → Bytes
comma zero = []
comma (suc index) = b',' ∷ []

-- The blanks in front of an element.
abbrev pub gap : ℤ → ℕ → Bytes
gap d index = comma index ++ (b'\n' ∷ tabs d)

-- What `introduceArrayElement` appends.
pub introduce_gap :
    (index : ℕ) (o : Output)
    → o.skip_newline ≡ false
    → introduce_array_element index o
      ≡ ok tt (record o { contents = o.contents ++ gap o.depth index })
unfolding introduce_array_element new_line
introduce_gap zero o h = ground arith
introduce_gap (suc index) o h =
    ground (arith, append_assoc o.contents (b',' ∷ []) (b'\n' ∷ tabs o.depth))

-- Blanks are eaten up to what is none.
pub blanks-append :
    (ws rest : Bytes) (c : ℕ)
    → All (λ b. is_blank b ≡ true) ws
    → is_blank c ≡ false
    → blanks (ws ++ (c ∷ rest)) ≡ length ws
unfolding blanks
blanks-append [] rest c h n = rw (n, blanks)
blanks-append (w ∷ ws) rest c h n = rw (h.0, blanks) (ap suc (blanks-append ws rest c h.1 n))

pub tabs_blank : (n : ℕ) → All (λ b. is_blank b ≡ true) (replicate n b'\t')
tabs_blank zero = tt
tabs_blank (suc n) = (unfold is_blank in refl, tabs_blank n)

pub gap_blank : (d : ℤ) (index : ℕ) → All (λ b. is_blank b ≡ true) (gap d index)
gap_blank d zero = (unfold is_blank in refl, tabs_blank (pos_part d))
gap_blank d (suc index) =
    (unfold is_blank in refl, (unfold is_blank in refl, tabs_blank (pos_part d)))

pub next_array_element-Stands :
    (ws rest : Bytes) (c : ℕ) (i : Input)
    → All (λ b. is_blank b ≡ true) ws
    → is_blank c ≡ false
    → Stands i (ws ++ (c ∷ rest))
    → next_array_element i ≡ ok (not (c == b']')) (advance (length ws) i)
unfolding next_array_element
next_array_element-Stands ws rest c i h n at =
    let eaten = ap blanks at ∙ blanks-append ws rest c h n in
    let there =
      get_elem?-Stands (advance (length ws) i) c rest (Stands-advance i ws (c ∷ rest) at) in
    ground (arith, eaten, there)

pub start_reading :
    (i : Input) (rest : Bytes)
    → Stands i (b'[' ∷ rest)
    → start_reading_array i ≡ ok tt (advance 1 i)
unfolding start_reading_array
start_reading i rest at = ground (
  arith,
  blanks-Stands i b'[' rest at (unfold is_blank in refl),
  get_elem?-Stands (advance 0 i) b'[' rest (Stands-advance i [] (b'[' ∷ rest) at),
)

pub end_reading :
    (i : Input) (rest : Bytes) → Stands i (b']' ∷ rest) → end_reading_array i ≡ ok tt (advance 1 i)
unfolding end_reading_array
end_reading i rest at = ground (
  arith,
  blanks-Stands i b']' rest at (unfold is_blank in refl),
  get_elem?-Stands (advance 0 i) b']' rest (Stands-advance i [] (b']' ∷ rest) at),
)

pub start_writing :
    (o : Output) (n : ℕ)
    → o.skip_newline ≡ false
    → start_writing_array (pos (suc n)) o
      ≡ ok tt (record o { contents = o.contents ++ (b'[' ∷ []); depth = incr o.depth })
unfolding start_writing_array
start_writing o n h = ground arith

pub end_writing :
    (o : Output)
    → o.skip_newline ≡ false
    → end_writing_array o
      ≡ ok tt (record o {
        contents = (o.contents ++ (b'\n' ∷ tabs (decr o.depth))) ++ (b']' ∷ []);
        depth = decr o.depth;
      })
unfolding end_writing_array new_line
end_writing o h = rw (h, new_line)
