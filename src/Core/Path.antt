-- ===== src/Core/Path.antt =====
-- bomba_core.hpp, PathWithSeparator, over any tree of callables.
pub mod RoundTrip
use bomba.Base.{
  ℕ, zero, suc, ◌+◌, Bool, true, false, List, [], ◌∷◌, ◌++◌, Bytes, length, take, drop, ◌==◌,
  if◌then◌else◌, Option, none, some,
}
use bomba.Base.Outcome.{Outcome, ok, undefined, diverges}

-- How many characters are in front of the first separator.
unfoldable pub segment_length : ℕ → Bytes → ℕ
segment_length separator [] = 0
segment_length separator (c ∷ cs) =
    let more = suc (segment_length separator cs) in if c == separator then 0 else more

abbrev pub then_find : {Node : Type 0} → Option Node → (Node → Option Node) → Option Node
then_find none next = none
then_find (some node) next = next node

-- `get_child` is the virtual method of a callable, and the separator is one character, as it is
-- wherever the code takes paths apart.
module _ {Node : Type 0} (get_child : Node → Bytes → Option Node) (separator : ℕ) where
  -- A round at a segment of known length, where `next` is the loop.
  unfoldable pub find_from : (Bytes → Node → Option Node) → ℕ → Bytes → Node → Option Node
  find_from next size path current =
      then_find (get_child current (take size path)) (next (drop (suc size) path))

  -- Every round takes a character at least, so fuel of the path's length does not run out.
  unfoldable pub find_loop : ℕ → Bytes → Node → Option Node
  unfolding segment_length find_from
  find_loop fuel [] current = some current
  find_loop zero (c ∷ cs) current = none
  find_loop (suc fuel) (c ∷ cs) current =
      find_from (find_loop fuel) (segment_length separator (c ∷ cs)) (c ∷ cs) current

  unfoldable pub find_callable : Bytes → Node → Option Node
  unfolding find_loop
  find_callable path root = find_loop (length path) path root

-- A callable is given by the names that lead to it, from its own up to that of the root's child.
unfoldable pub prepend_path : ℕ → List Bytes → Bytes
prepend_path separator [] = []
prepend_path separator (name ∷ parents) =
    prepend_path separator parents ++ (name ++ (separator ∷ []))

unfoldable pub construct_path : ℕ → List Bytes → Bytes
unfolding prepend_path
construct_path separator [] = []
construct_path separator (name ∷ parents) = prepend_path separator parents ++ name
