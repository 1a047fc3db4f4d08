-- ===== src/Json/RoundTrip/Vector.antt =====
-- Vectors of values that JSON carries over are carried over, at any depth of nesting.
use bomba.Base.{
  ℕ, zero, suc, ◌+◌, ◌^◌, ◌≤◌, ◌<◌, Bool, true, false, ◌||◌, List, [], ◌∷◌, ◌++◌, Bytes, length,
  length-append, ◌==◌, ◌≡◌, refl, sym, ap, ◌∙◌, arith, append_assoc, append-nil, All,
}
use bomba.Base.Int.{ℤ, pos, negsuc, incr, decr}
use bomba.Base.Outcome.{ok, >>=-ok}
use bomba.Core.Flags.{Flags}
use bomba.Core.Serialiser.{
  TypedSerialiser, write_elements, write_vector, write_vector_small, vector_loop, read_vector,
  vector, head_or, tail,
}
use bomba.Json.Format.{json_output, json_input}
use bomba.Json.Input.{
  Input, remaining, advance, is_blank, start_reading_array, next_array_element, end_reading_array,
}
use bomba.Json.Output.{
  Output, new_line, start_writing_array, introduce_array_element, end_writing_array,
}
use bomba.Json.RoundTrip.{Stands, Stands-advance}
use bomba.Json.RoundTrip.Gaps.{
  tabs, gap, introduce_gap, gap_blank, next_array_element-Stands, start_reading, end_reading,
  start_writing, end_writing,
}

unfoldable pub is_delimiter : ℕ → Bool
is_delimiter c = c == b',' || c == b'\n'

-- JSON carries the value `v` over: it is written as a text that depends on the depth, and that text,
-- with a comma or a newline behind it, is read as `v`, whatever value was there before.
pub record Carries {T : Type 0} (s : TypedSerialiser Output Input T) (v : T) : Type 0 where
  pub first : ℤ → ℕ
  pub others : ℤ → Bytes
  pub fuel : ℕ
  pub first_blank : (d : ℤ) → is_blank (first d) ≡ false
  pub first_bracket : (d : ℤ) → (first d == b']') ≡ false
  pub writes :
      (o : Output) (flags : Flags)
      → o.skip_newline ≡ false
      → s.serialise_member v flags o
        ≡ ok tt (record o { contents = o.contents ++ (first o.depth ∷ others o.depth) })
  pub reads :
      (d : ℤ) (i : Input) (old : T) (flags : Flags) (k c : ℕ) (rest : Bytes)
      → is_delimiter c ≡ true
      → fuel ≤ k
      → Stands i (first d ∷ (others d ++ (c ∷ rest)))
      → s.deserialise_member k old flags i ≡ ok v (advance (suc (length (others d))) i)

module _ {T : Type 0} (s : TypedSerialiser Output Input T) where
  abbrev elements : ℤ → ℕ → (xs : List T) → All (Carries s) xs → Bytes
  elements d index [] h = []
  elements d index (x ∷ xs) (h, hs) =
      gap d index ++ (h.first d ∷ (h.others d ++ elements d (suc index) xs hs))

  abbrev pub total_fuel : (xs : List T) → All (Carries s) xs → ℕ
  total_fuel [] h = 1
  total_fuel (x ∷ xs) (h, hs) = suc (h.fuel + total_fuel xs hs)

  write_elements-Carries :
      (xs : List T) (h : All (Carries s) xs) (index : ℕ) (o : Output) (flags : Flags)
      → o.skip_newline ≡ false
      → write_elements json_output json_input s index xs flags o
        ≡ ok tt (record o { contents = o.contents ++ elements o.depth index xs h })
  unfolding write_elements
  write_elements-Carries [] h index o flags n = ground (arith, append-nil o.contents)
  write_elements-Carries (x ∷ xs) (h, hs) index o flags n =
      let introduced = record o { contents = o.contents ++ gap o.depth index } in
      let written = record o {
        contents = introduced.contents ++ (h.first o.depth ∷ h.others o.depth);
      } in
      >>=-ok (introduce_array_element index) _ (introduce_gap index o n)
      ∙ >>=-ok (s.serialise_member x flags) _ (h.writes introduced flags n)
      ∙ write_elements-Carries xs hs (suc index) written flags n
      ∙ ap (λ (l : Bytes). ok tt (record o { contents = l })) (simp append_assoc)

  -- A comma or a newline follows an element.
  delimited :
      (xs : List T) (h : All (Carries s) xs) (d e : ℤ) (index : ℕ) (rest : Bytes)
      → (c : ℕ) × (follow : Bytes) × (elements d (suc index) xs h
            ++ (b'\n' ∷ (tabs e ++ (b']' ∷ rest)))
          ≡ c ∷ follow)
        × (is_delimiter c ≡ true)
  unfolding is_delimiter
  delimited [] h d e index rest = (b'\n', tabs e ++ (b']' ∷ rest), refl, refl)
  delimited (x ∷ xs) h d e index rest = (b',', _, refl, refl)

  vector_loop-empty :
      (default : T) (k : ℕ) (done left : List T) (flags : Flags) (i : Input) (rest : Bytes)
      → Stands i (b']' ∷ rest)
      → vector_loop json_output json_input s default (suc k) done left flags i
        ≡ ok done (advance 0 i)
  unfolding vector_loop
  vector_loop-empty default k done left flags i rest at =
      >>=-ok next_array_element _
        (next_array_element-Stands [] rest b']' i tt (unfold is_blank in refl) at)

  -- The elements that the reader stands in front of are read, up to the bracket behind them.
  vector_loop-Carries :
      (xs : List T) (h : All (Carries s) xs) (d e : ℤ) (index : ℕ) (default : T) (k : ℕ)
      (done left : List T) (flags : Flags) (i : Input) (rest : Bytes)
      → total_fuel xs h ≤ k
      → Stands i (elements d index xs h ++ (b'\n' ∷ (tabs e ++ (b']' ∷ rest))))
      → vector_loop json_output json_input s default k done left flags i
        ≡ ok (done ++ xs) (advance (length (elements d index xs h) + suc (length (tabs e))) i)
  unfolding vector_loop
  vector_loop-Carries [] h d e index default zero done left flags i rest k at = absurd (omega arith)
  vector_loop-Carries [] h d e index default (suc k) done left flags i rest f at =
      >>=-ok next_array_element _ (
        next_array_element-Stands (gap e 0) rest b']' i (gap_blank e 0) (unfold is_blank in refl)
          at)
      ∙ ground (arith, append-nil done)
  vector_loop-Carries (x ∷ xs) (h, hs) d e index default zero done left flags i rest f at =
      absurd (omega arith)
  vector_loop-Carries (x ∷ xs) (h, hs) d e index default (suc k) done left flags i rest f at =
      let closing = b'\n' ∷ (tabs e ++ (b']' ∷ rest)) in
      let behind = elements d (suc index) xs hs ++ (b'\n' ∷ (tabs e ++ (b']' ∷ rest))) in
      let (c, follow, split, delimits) = delimited xs hs d e index rest in
      let here : Stands i (gap d index ++ (h.first d ∷ (h.others d ++ behind))) =
        at
        ∙ append_assoc (gap d index) (h.first d ∷ (h.others d ++ elements d (suc index) xs hs))
            closing
        ∙ ap (λ (l : Bytes). gap d index ++ (h.first d ∷ l))
            (append_assoc (h.others d) (elements d (suc index) xs hs) closing) in
      let i₁ = advance (length (gap d index)) i in
      let there : Stands i₁ (h.first d ∷ (h.others d ++ behind)) =
        Stands-advance i (gap d index) (h.first d ∷ (h.others d ++ behind)) here in
      let i₂ = advance (suc (length (h.others d))) i₁ in
      >>=-ok next_array_element _ (
        next_array_element-Stands (gap d index) (h.others d ++ behind) (h.first d) i
          (gap_blank d index) (h.first_blank d) here)
      ∙ rw (h.first_bracket d) (
          >>=-ok (s.deserialise_member k (head_or default left) flags) _ (
            h.reads d i₁ (head_or default left) flags k c follow delimits (omega arith)
              (there ∙ ap (λ (l : Bytes). h.first d ∷ (h.others d ++ l)) split))
          ∙ vector_loop-Carries xs hs d e (suc index) default k (done ++ (x ∷ [])) (tail left) flags
              i₂ rest (omega arith) (Stands-advance i₁ (h.first d ∷ h.others d) behind there)
          ∙ ground (
            arith,
            append_assoc done (x ∷ []) xs,
            length-append (gap d index) (h.first d ∷ (h.others d ++ elements d (suc index) xs hs)),
            length-append (h.others d) (elements d (suc index) xs hs),
          ))

  module _ (default : T) where
    vector_others : (xs : List T) → All (Carries s) xs → ℤ → Bytes
    vector_others [] h d = b']' ∷ []
    vector_others (x ∷ xs) h d = elements (incr d) 0 (x ∷ xs) h ++ (b'\n' ∷ (tabs d ++ (b']' ∷ [])))

    decr-incr : (d : ℤ) → decr (incr d) ≡ d
    decr-incr (pos n) = refl
    decr-incr (negsuc zero) = refl
    decr-incr (negsuc (suc n)) = refl

    write_vector-Carries :
        (xs : List T) (h : All (Carries s) xs) (o : Output) (flags : Flags)
        → length xs < 2 ^ 31
        → o.skip_newline ≡ false
        → write_vector json_output json_input s xs flags o
          ≡ ok tt (record o { contents = o.contents ++ (b'[' ∷ vector_others xs h o.depth) })
    unfolding vector_others
    write_vector-Carries [] h o flags small n =
        write_vector_small json_output json_input s [] flags o (omega arith)
        ∙ (unfold start_writing_array end_writing_array new_line write_elements in
            ground (arith, decr-incr o.depth, append_assoc o.contents (b'[' ∷ []) (b']' ∷ [])))
    write_vector-Carries (x ∷ xs) h o flags small n =
        let opened = record o { contents = o.contents ++ (b'[' ∷ []); depth = incr o.depth } in
        let filled = record opened {
          contents = opened.contents ++ elements (incr o.depth) 0 (x ∷ xs) h;
        } in
        write_vector_small json_output json_input s (x ∷ xs) flags o small
        ∙ >>=-ok (start_writing_array (pos (suc (length xs)))) _ (start_writing o (length xs) n)
        ∙ >>=-ok (write_elements json_output json_input s 0 (x ∷ xs) flags) _
            (write_elements-Carries (x ∷ xs) h 0 opened flags n)
        ∙ end_writing filled n
        ∙ rw (decr-incr o.depth)
            (ap (λ (l : Bytes). ok tt (record o { contents = l })) (simp append_assoc))

    read_vector-Carries :
        (xs : List T) (h : All (Carries s) xs) (d : ℤ) (i : Input) (old : List T) (flags : Flags)
        (k c : ℕ) (rest : Bytes)
        → total_fuel xs h ≤ k
        → Stands i (b'[' ∷ (vector_others xs h d ++ (c ∷ rest)))
        → read_vector json_output json_input s default k old flags i
          ≡ ok xs (advance (suc (length (vector_others xs h d))) i)
    unfolding read_vector vector_others
    read_vector-Carries [] h d i old flags zero c rest f at = absurd (omega arith)
    read_vector-Carries [] h d i old flags (suc k) c rest f at =
        let inside = Stands-advance i (b'[' ∷ []) (b']' ∷ (c ∷ rest)) at in
        let here = Stands-advance (advance 1 i) [] (b']' ∷ (c ∷ rest)) inside in
        ground (
          arith,
          start_reading i (b']' ∷ (c ∷ rest)) at,
          vector_loop-empty default k [] old flags (advance 1 i) (c ∷ rest) inside,
          end_reading (advance 0 (advance 1 i)) (c ∷ rest) here,
        )
    read_vector-Carries (x ∷ xs) h d i old flags k c rest f at =
        let all = elements (incr d) 0 (x ∷ xs) h in
        let inside : Stands (advance 1 i) (all ++ (b'\n' ∷ (tabs d ++ (b']' ∷ (c ∷ rest))))) =
          Stands-advance i (b'[' ∷ []) (vector_others (x ∷ xs) h d ++ (c ∷ rest)) at
          ∙ append_assoc all (b'\n' ∷ (tabs d ++ (b']' ∷ []))) (c ∷ rest)
          ∙ ap (λ (l : Bytes). all ++ (b'\n' ∷ l)) (append_assoc (tabs d) (b']' ∷ []) (c ∷ rest)) in
        let i₂ = advance (length all + suc (length (tabs d))) (advance 1 i) in
        let closing : Stands i₂ (b']' ∷ (c ∷ rest)) =
          ap (λ (n : ℕ). remaining (advance n (advance 1 i)))
            (sym (length-append all (b'\n' ∷ tabs d)))
          ∙ Stands-advance (advance 1 i) (all ++ (b'\n' ∷ tabs d)) (b']' ∷ (c ∷ rest))
              (inside ∙ sym (append_assoc all (b'\n' ∷ tabs d) (b']' ∷ (c ∷ rest)))) in
        >>=-ok start_reading_array _ (start_reading i (vector_others (x ∷ xs) h d ++ (c ∷ rest)) at)
        ∙ >>=-ok (vector_loop json_output json_input s default k [] old flags) _ (
            vector_loop-Carries (x ∷ xs) h (incr d) d 0 default k [] old flags (advance 1 i)
              (c ∷ rest) f inside)
        ∙ >>=-ok end_reading_array _ (end_reading i₂ (c ∷ rest) closing)
        ∙ ap (λ (n : ℕ). ok (x ∷ xs) (record i { position = n }))
            (omega (
              arith,
              length-append all (b'\n' ∷ (tabs d ++ (b']' ∷ []))),
              length-append (tabs d) (b']' ∷ []),
            ))

    -- If JSON carries every element over, it carries a vector over whose size an int can say.
    pub vector-Carries :
        (xs : List T)
        → length xs < 2 ^ 31
        → All (Carries s) xs
        → Carries (vector json_output json_input s default) xs
    unfolding vector_others
    vector-Carries xs small h = record {
      first = λ d. b'[';
      others = vector_others xs h;
      fuel = total_fuel xs h;
      first_blank = λ d. unfold is_blank in refl;
      first_bracket = λ d. refl;
      writes = λ o flags n. write_vector-Carries xs h o flags small n;
      reads = λ d i old flags k c rest delimits f at.
          read_vector-Carries xs h d i old flags k c rest f at;
    }

    pub Carries-fuel :
        (xs : List T) (small : length xs < 2 ^ 31) (h : All (Carries s) xs) (k : ℕ)
        → total_fuel xs h ≤ k
        → (vector-Carries xs small h).fuel ≤ k
    unfolding vector-Carries
    Carries-fuel xs small h k enough = enough
