-- ===== src/Core/Path/RoundTrip.antt =====
-- A constructed path leads to the callable that it was constructed from.
use bomba.Base.{
  ℕ, zero, suc, ◌≤◌, false, List, [], ◌∷◌, ◌++◌, Bytes, length, length-append, drop, take_all,
  take-length_append, ◌==◌, Option, none, some, All, ◌≡◌, ◌≢◌, refl, sym, ap, ◌∙◌, arith,
  append_assoc,
}
use bomba.Core.Path.{
  segment_length, find_loop, find_callable, find_from, then_find, prepend_path, construct_path,
}

-- A name that is not empty and has no separator in it.
abbrev pub IsName : ℕ → Bytes → Type 0
IsName separator name = (name ≢ []) × All (λ c. (c == separator) ≡ false) name

segment_length-behind :
    (separator : ℕ) (name rest : Bytes)
    → All (λ c. (c == separator) ≡ false) name
    → segment_length separator (name ++ (separator ∷ rest)) ≡ length name
unfolding segment_length
segment_length-behind separator [] rest h = ground arith
segment_length-behind separator (c ∷ cs) rest h =
    rw (h.0, segment_length) (ap suc (segment_length-behind separator cs rest h.1))

segment_length-all :
    (separator : ℕ) (name : Bytes)
    → All (λ c. (c == separator) ≡ false) name
    → segment_length separator name ≡ length name
unfolding segment_length
segment_length-all separator [] h = refl
segment_length-all separator (c ∷ cs) h =
    rw (h.0, segment_length) (ap suc (segment_length-all separator cs h.1))

drop-past : (xs rest : Bytes) (c : ℕ) → drop (suc (length xs)) (xs ++ (c ∷ rest)) ≡ rest
drop-past [] rest c = refl
drop-past (x ∷ xs) rest c = drop-past xs rest c

then_find_assoc :
    {Node : Type 0} (o : Option Node) (f g : Node → Option Node)
    → then_find (then_find o f) g ≡ then_find o (λ n. then_find (f n) g)
then_find_assoc none f g = refl
then_find_assoc (some n) f g = refl

then_find_cong :
    {Node : Type 0} (o : Option Node) (f g : Node → Option Node)
    → ((n : Node) → f n ≡ g n)
    → then_find o f ≡ then_find o g
then_find_cong none f g h = refl
then_find_cong (some n) f g h = h n

then_find-some :
    {Node : Type 0} (o : Option Node) (f : Bytes → Node → Option Node)
    → ((n : Node) → f [] n ≡ some n)
    → then_find o (f []) ≡ o
then_find-some none f h = refl
then_find-some (some n) f h = h n

positive-split : (n : ℕ) → 1 ≤ n → (m : ℕ) × (n ≡ suc m)
positive-split zero h = absurd (omega (arith, h))
positive-split (suc n) h = (n, refl)

name-length : (name : Bytes) → name ≢ [] → 1 ≤ length name
name-length [] h = absurd (h refl)
name-length (c ∷ cs) h = omega arith

drop-behind : (xs : Bytes) → drop (suc (length xs)) xs ≡ []
drop-behind [] = refl
drop-behind (x ∷ xs) = drop-behind xs

module _ {Node : Type 0} (get_child : Node → Bytes → Option Node) (separator : ℕ) where
  -- The callable that the names lead to from the root.
  abbrev pub descend : Node → List Bytes → Option Node
  descend root [] = some root
  descend root (name ∷ parents) = then_find (descend root parents) (λ n. get_child n name)

  find_loop-behind :
      (fuel : ℕ) (name rest : Bytes) (n : Node)
      → IsName separator name
      → find_loop get_child separator (suc fuel) (name ++ (separator ∷ rest)) n
        ≡ then_find (get_child n name) (find_loop get_child separator fuel rest)
  unfolding find_loop find_from
  find_loop-behind fuel [] rest n h = absurd (h.0 refl)
  find_loop-behind fuel (c ∷ cs) rest n h =
      let path : Bytes = (c ∷ cs) ++ (separator ∷ rest) in
      let next = find_loop get_child separator fuel in
      ap (λ size. find_from get_child separator next size path n)
        (segment_length-behind separator (c ∷ cs) rest h.1)
      ∙ ap (λ l. then_find (get_child n l) (next (drop (suc (length (c ∷ cs))) path)))
          (take-length_append (c ∷ cs) (separator ∷ rest))
      ∙ ap (λ l. then_find (get_child n (c ∷ cs)) (next l)) (drop-past (c ∷ cs) rest separator)

  find_loop-last :
      (fuel : ℕ) (name : Bytes) (n : Node)
      → IsName separator name
      → find_loop get_child separator (suc fuel) name n ≡ get_child n name
  unfolding find_loop find_from
  find_loop-last fuel [] n h = absurd (h.0 refl)
  find_loop-last fuel (c ∷ cs) n h =
      let path : Bytes = c ∷ cs in
      let next = find_loop get_child separator fuel in
      ap (λ size. find_from get_child separator next size path n)
        (segment_length-all separator (c ∷ cs) h.1)
      ∙ ap (λ l. then_find (get_child n l) (next (drop (suc (length path)) path))) (take_all path)
      ∙ ap (λ l. then_find (get_child n path) (next l)) (drop-behind (c ∷ cs))
      ∙ then_find-some (get_child n path) next (λ m. refl)

  find_loop-prepend_path :
      (parents : List Bytes) (fuel : ℕ) (rest : Bytes) (root : Node)
      → All (IsName separator) parents
      → length (prepend_path separator parents ++ rest) ≤ fuel
      → (left : ℕ) × (length rest ≤ left)
        × (find_loop get_child separator fuel (prepend_path separator parents ++ rest) root
            ≡ then_find (descend root parents) (find_loop get_child separator left rest))
  unfolding prepend_path
  find_loop-prepend_path [] fuel rest root h enough = (fuel, enough, refl)
  find_loop-prepend_path (name ∷ parents) fuel rest root h enough =
      let behind : Bytes = name ++ (separator ∷ rest) in
      let grouped : prepend_path separator (name ∷ parents) ++ rest
          ≡ prepend_path separator parents ++ behind =
        append_assoc (prepend_path separator parents) (name ++ (separator ∷ [])) rest
        ∙ ap (λ l. prepend_path separator parents ++ l) (append_assoc name (separator ∷ []) rest) in
      let (left, room, found) =
        find_loop-prepend_path parents fuel behind root h.1
          (omega (arith, enough, ap (λ (l : Bytes). length l) grouped)) in
      let (fuel₁, e) =
        positive-split left (omega (arith, room, length-append name (separator ∷ rest))) in
      (
        fuel₁,
        omega (arith, room, e, length-append name (separator ∷ rest)),
        ap (λ l. find_loop get_child separator fuel l root) grouped
            ∙ found
            ∙ ap
                (λ (k : ℕ).
                  then_find (descend root parents) (find_loop get_child separator k behind))
                e
            ∙ then_find_cong (descend root parents) _ _
                (λ n. find_loop-behind fuel₁ name rest n h.0)
            ∙ sym (
                then_find_assoc (descend root parents) (λ n. get_child n name)
                  (find_loop get_child separator fuel₁ rest)),
      )

  -- Where no name on the way to a callable is empty or has the separator in it, the path that is
  -- constructed for the callable is found to lead to what the names lead to, one after the other.
  pub find_callable-construct_path :
      (root : Node) (names : List Bytes)
      → All (IsName separator) names
      → find_callable get_child separator (construct_path separator names) root ≡ descend root names
  unfolding find_callable construct_path
  find_callable-construct_path root [] h = refl
  find_callable-construct_path root (name ∷ parents) h =
      let path = prepend_path separator parents ++ name in
      let (left, room, found) =
        find_loop-prepend_path parents (length path) name root h.1 (omega arith) in
      let (fuel, e) = positive-split left (omega (arith, room, name-length name h.0.0)) in
      found
      ∙ ap (λ (k : ℕ). then_find (descend root parents) (find_loop get_child separator k name)) e
      ∙ then_find_cong (descend root parents) _ _ (λ n. find_loop-last fuel name n h.0)
