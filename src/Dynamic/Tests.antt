-- ===== src/Dynamic/Tests.antt =====
-- An object with two callables, one of them inside its holder.
use bomba.Base.{true, false, [], ◌∷◌, ◌++◌, none, some, ◌≡◌, refl}
use bomba.Base.Int.{pos, negsuc}
use bomba.Base.Outcome.{ok, undefined}
use bomba.Base.Text.{codes}
use bomba.Dynamic.{
  Holder, inside, arrow, Contents, get_child, get_child_named, child_name, reset, move_construct,
  without,
}
use bomba.Dynamic.Children.{child_name-get_child, move_construct-reset}

abbrev large : Holder
large = record { held = some 40; is_local = false; owning = true }

abbrev small : Holder
small = record { held = none; is_local = true; owning = true }

abbrev before_it : Contents
before_it = (codes "greet", large) ∷ []

child_name-get_child_example :
    (child_name 0 (inside 1) (before_it ++ ((codes "add", small) ∷ [])) ≡ (codes "add", pos 1))
    × (get_child
          (child_name 0 (inside 1) (before_it ++ ((codes "add", small) ∷ []))).1
          (before_it ++ ((codes "add", small) ∷ []))
          (40 ∷ [])
        ≡ ok (some (inside 1)) (40 ∷ []))
    × (get_child_named 0
          (child_name 0 (inside 1) (before_it ++ ((codes "add", small) ∷ []))).0
          (before_it ++ ((codes "add", small) ∷ []))
        ≡ some (inside 1))
unfolding arrow
child_name-get_child_example =
    child_name-get_child (inside 1) before_it [] (codes "add") small (40 ∷ []) (refl, tt) (refl, tt)
      refl

move_construct-reset_example :
    (this : Holder) × (other : Holder) × (move_construct large (40 ∷ 41 ∷ [])
      ≡ ok (this, other) (40 ∷ 41 ∷ []))
    × (reset other (40 ∷ 41 ∷ []) ≡ ok other (40 ∷ 41 ∷ []))
    × (reset this (40 ∷ 41 ∷ []) ≡ ok (record this { held = none }) (without 40 (40 ∷ 41 ∷ [])))
move_construct-reset_example = move_construct-reset large 40 (40 ∷ 41 ∷ []) refl refl refl refl

-- A negative index passes the comparison with the size.
negative_index : get_child (negsuc 0) before_it [] ≡ undefined
unfolding get_child
negative_index = refl
