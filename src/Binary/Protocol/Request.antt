-- ===== src/Binary/Protocol/Request.antt =====
-- A request of the client names the method that it is for, and the server's `respond` finds it.
use bomba.Base.{
  ℕ, zero, suc, ◌+◌, ◌-◌, ◌≤◌, ◌<◌, List, [], ◌∷◌, ◌++◌, Bytes, length, drop, drop-length_append,
  Option, none, some, ◌≡◌, refl, sym, ap, ◌∙◌, arith, append_assoc, append-nil,
}
use mathlib.Core.Path.{subst}
use bomba.Base.Int.{ℤ, pos, negsuc}
use bomba.Base.Outcome.{M, ok, ◌>>=◌, ◌>>◌, >>=-ok, return}
use bomba.Binary.Input.{Input, advance}
use bomba.Binary.Output
use bomba.Binary.Output.{Output}
use bomba.Binary.RoundTrip.{
  Stands, Stands-advance, Fits, encoded, length-encoded, prepare_number-encoded, read_int-Stands,
  write_number-encoded,
}
use bomba.Binary.Protocol.{
  Protocol, read_as, write_as, start_message, fill_size, in_child, find_method, find_path,
  write_path,
}
use bomba.Core.Callable.{Callables}
use bomba.Core.Flags.{NumericType, int_8, uint_8, int_32, uint_32, type_to_flags, type_with_flags}
use bomba.Core.Integer.{size_of, InRange, narrow, narrow-InRange}
use bomba.Tcp.Buffer.{splice}
use bomba.Tcp.Buffer.Memory.{splice-at}

type_of_flags : (t : NumericType) → type_with_flags (type_to_flags t) ≡ some t
unfolding type_with_flags type_to_flags
type_of_flags int_8 = refl
type_of_flags _ = refl

uint_8-int_32 : (i : ℤ) → InRange uint_8 i → InRange int_32 i
uint_8-int_32 (pos n) h = omega (arith, h)
uint_8-int_32 (negsuc n) h = absurd h

module _ (p : Protocol) where
  -- The bytes of a number of the type.
  abbrev pub number_as : NumericType → ℤ → Bytes
  number_as t v = encoded p.fp t v

  pub read_as-Stands :
      (i : Input) (t : NumericType) (v : ℤ) (rest : Bytes)
      → Fits t v
      → Stands i (number_as t v ++ rest)
      → (read_as p t i ≡ ok v (advance (size_of t) i)) × Stands (advance (size_of t) i) rest
  unfolding read_as
  read_as-Stands i t v rest fits at = (
    read_int-Stands p.fp p.size_type i t v (type_to_flags t) rest (type_of_flags t) fits at,
    subst (λ (n : ℕ). Stands (advance n i) rest) (length-encoded p.fp t v)
        (Stands-advance i (number_as t v) rest at),
  )

  pub write_as-encoded :
      (t : NumericType) (v : ℤ) (o : Output) → write_as p t v o ≡ ok tt (o ++ number_as t v)
  unfolding write_as Output.write_int
  write_as-encoded t v o =
      ground (arith, write_number-encoded p.fp t v (type_to_flags t) (type_of_flags t))

  -- A message's header without its size, which stands behind the token.
  pub start_message-lem :
      (id : ℤ)
      → start_message p id [] ≡ ok 4 (number_as uint_32 id ++ number_as p.size_type (pos 0))
  unfolding start_message
  start_message-lem id =
      let token = number_as uint_32 id in
      let long : length token ≡ 4 = length-encoded p.fp uint_32 id in
      >>=-ok (write_as p uint_32 id)
        (λ _. (do
          size_position ← λ o. ok (length o) o
          write_as p p.size_type (pos 0)
          return size_position))
        {s = []} (write_as-encoded uint_32 id [])
      ∙ >>=-ok (write_as p p.size_type (pos 0)) (λ _. return (length token)) {s = token}
          (write_as-encoded p.size_type (pos 0) token)
      ∙ ap (λ (n : ℕ). ok n (token ++ number_as p.size_type (pos 0))) long

  pub fill_size-lem :
      (id : ℤ) (body : Bytes)
      → let filled = number_as uint_32 id ++ (number_as p.size_type (pos 0) ++ body) in
        fill_size p 4 filled
        ≡ number_as uint_32 id ++ (number_as p.size_type (pos (length filled)) ++ body)
  unfolding fill_size
  fill_size-lem id body =
      let token = number_as uint_32 id in
      let none = number_as p.size_type (pos 0) in
      let filled = token ++ (none ++ body) in
      let size = number_as p.size_type (pos (length filled)) in
      let same : length size ≡ length none =
        length-encoded p.fp p.size_type (pos (length filled))
        ∙ sym (length-encoded p.fp p.size_type (pos 0)) in
      ap (λ (l : Bytes). splice 4 l filled)
        (prepare_number-encoded p.fp p.size_type (pos (length filled)))
      ∙ splice-at 4 token (none ++ body) size (length-encoded p.fp uint_32 id)
      ∙ ap (λ (l : Bytes). token ++ (size ++ l))
          (ap (λ (n : ℕ). drop n (none ++ body)) same ∙ drop-length_append none body)

  module _ {Node W : Type 0} (tree : Callables Output Input Node W) where
    -- What a tree of callables promises: a child knows its parent, which knows its index.
    pub record IsTree : Type 0 where
      pub parent_of : (n c : Node) (i : ℤ) → tree.get_child n i ≡ some c → tree.parent c ≡ some n
      pub index_of :
          (n c : Node) (i : ℤ)
          → tree.get_child n i ≡ some c
          → (name : Bytes) × (tree.child_name n c ≡ some (name, i))

    -- The indices lead from a callable down to another. The first child is what tells a callable with
    -- children from a method.
    pub data Leads : Node → List ℤ → Node → Type 0 where
      here : {n : Node} → Leads n [] n
      below :
          {n child first m : Node} {path : List ℤ} (i : ℤ)
          → InRange uint_8 i
          → tree.get_child n i ≡ some child
          → tree.get_child n (pos 0) ≡ some first
          → Leads child path m
          → Leads n (i ∷ path) m

    find_path-up :
        {n child : Node}
        → IsTree
        → (i : ℤ) → tree.get_child n i ≡ some child
        → InRange uint_8 i
        → (left : ℕ) (held : List ℤ)
        → find_path p tree (suc left) child held ≡ find_path p tree left n (i ∷ held)
    unfolding find_path
    find_path-up {n} {child} is_tree i at small left held =
        let (name, known) = is_tree.index_of n child i at in
        rw (find_path, is_tree.parent_of n child i at, known)
          (ap (λ (k : ℤ). find_path p tree left n (k ∷ held)) (narrow-InRange uint_8 i small))

    -- The loop of `send` climbs by the indices that lead down.
    find_path-Leads :
        {n m : Node} {path : List ℤ}
        → IsTree
        → Leads n path m
        → (left : ℕ) (held : List ℤ)
        → find_path p tree (length path + left) m held ≡ find_path p tree left n (path ++ held)
    find_path-Leads is_tree here left held = ap (λ k. find_path p tree k _ held) (omega arith)
    find_path-Leads is_tree (below {n} {child} {first} {m} {path} i small at some_first rest) left
          held =
        ap (λ k. find_path p tree k m held) {y = length path + suc left} (omega arith)
        ∙ find_path-Leads is_tree rest (suc left) held
        ∙ find_path-up is_tree i at small left (path ++ held)

    find_path-root :
        {root : Node}
        → tree.parent root ≡ none
        → (left : ℕ) (held : List ℤ) → find_path p tree left root held ≡ ok held tt
    unfolding find_path
    find_path-root top zero held = rw (find_path, top) refl
    find_path-root top (suc left) held = rw (find_path, top) refl

    pub find_path-lem :
        {root m : Node} {path : List ℤ} (max_depth : ℕ)
        → IsTree
        → tree.parent root ≡ none
        → Leads root path m
        → length path ≤ max_depth
        → find_path p tree max_depth m [] ≡ ok path tt
    find_path-lem {root} {m} {path} max_depth is_tree top leads short =
        ap (λ (k : ℕ). find_path p tree k m []) {y = length path + (max_depth - length path)}
          (omega (arith, short))
        ∙ find_path-Leads is_tree leads (max_depth - length path) []
        ∙ find_path-root top (max_depth - length path) (path ++ [])
        ∙ ap (λ (l : List ℤ). ok l tt) (append-nil path)

    abbrev pub path_bytes : List ℤ → Bytes
    path_bytes [] = []
    path_bytes (i ∷ path) = number_as uint_8 i ++ path_bytes path

    pub write_path-lem :
        (path : List ℤ) (o : Output) → write_path p tree path o ≡ ok tt (o ++ path_bytes path)
    unfolding write_path
    write_path-lem [] o = ap (λ (l : Bytes). ok tt l) (sym (append-nil o))
    write_path-lem (i ∷ path) o =
        >>=-ok (write_as p uint_8 i) (λ _. write_path p tree path) {s = o}
          (write_as-encoded uint_8 i o)
        ∙ write_path-lem path (o ++ number_as uint_8 i)
        ∙ ap (λ (l : Bytes). ok tt l) (append_assoc o (number_as uint_8 i) (path_bytes path))

    find_method-below :
        {n child first : Node} (i : Input) (index : ℤ) (rest : Bytes) (fuel : ℕ)
        → InRange uint_8 index
        → tree.get_child n index ≡ some child
        → tree.get_child n (pos 0) ≡ some first
        → Stands i (number_as uint_8 index ++ rest)
        → (find_method p tree (suc fuel) n i ≡ find_method p tree fuel child (advance 1 i))
          × Stands (advance 1 i) rest
    unfolding find_method in_child
    find_method-below {n} {child} {first} i index rest fuel small at some_first here_bytes =
        let (read, behind) = read_as-Stands i uint_8 index rest small here_bytes in
        let wide : narrow int_32 index ≡ index =
          narrow-InRange int_32 index (uint_8-int_32 index small) in
        let again = find_method p tree fuel in
        let next : ℤ → M Input (Option Node) =
          λ request. in_child p tree again (tree.get_child n (narrow int_32 request)) in
        (
          rw (find_method, some_first)
              (>>=-ok (read_as p uint_8) next {s = i} read
                ∙ ap (λ (k : ℤ). in_child p tree again (tree.get_child n k) (advance 1 i)) wide
                ∙ ap (λ (o : Option Node). in_child p tree again o (advance 1 i)) at),
          behind,
        )

    find_method-leaf :
        {m : Node} (fuel : ℕ) (i : Input)
        → tree.get_child m (pos 0) ≡ none
        → find_method p tree (suc fuel) m i ≡ ok (some m) i
    unfolding find_method
    find_method-leaf fuel i leaf = rw (find_method, leaf) refl

    -- The server's loop goes down by them, and stands behind them at the method.
    pub find_method-Leads :
        {n m : Node} {path : List ℤ}
        → Leads n path m
        → tree.get_child m (pos 0) ≡ none
        → (fuel : ℕ) (i : Input) (rest : Bytes) → length path < fuel
        → Stands i (path_bytes path ++ rest)
        → (j : Input) × (find_method p tree fuel n i ≡ ok (some m) j)
          × Stands j rest
          × (j.position ≡ i.position + length path)
    find_method-Leads {n} {m} leads leaf zero i rest enough at = absurd (omega (arith, enough))
    find_method-Leads {n} {m} here leaf (suc fuel) i rest enough at =
        (i, find_method-leaf fuel i leaf, at, omega arith)
    find_method-Leads {n} {m}
          (below {child = below_it} {first = first} {path = path} index small child some_first
            leads)
          leaf (suc fuel) i rest enough at =
        let (run, behind) =
          find_method-below i index (path_bytes path ++ rest) fuel small child some_first
            (at ∙ append_assoc (number_as uint_8 index) (path_bytes path) rest) in
        let (j, found, stands, position) =
          find_method-Leads {n = below_it} {m = m} leads leaf fuel (advance 1 i) rest
            (omega (arith, enough)) behind in
        (j, run ∙ found, stands, omega (arith, position))
