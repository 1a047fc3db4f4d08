-- ===== src/Dynamic.antt =====
-- bomba_dynamic_object.hpp: RpcLambdaHolder, which owns a callable or holds it in itself, and
-- DynamicRpcObject, which has callables under names. What a callable does, and its parent pointer, are
-- not part of this.
pub mod Children
mod Tests
use bomba.Base.{
  ℕ, zero, suc, Bool, true, false, not, ◌&&◌, List, [], ◌∷◌, ◌++◌, Bytes, get_elem?, length, ◌==◌,
  if◌then◌else◌, Option, none, some,
}
use bomba.Base.Int.{ℤ, pos, negsuc}
use bomba.Base.Outcome.{M, Outcome, ok, raise, undefined, diverges}
use bomba.Base.Text.{same_text}

-- Where a callable is: an object of its own, or inside the holder that stands at an index.
pub data Address : Type 0 where
  heap inside : ℕ → Address

abbrev pub same_address : Address → Address → Bool
same_address (heap a) (heap b) = a == b
same_address (inside a) (inside b) = a == b
same_address _ _ = false

-- `held` is none where the pointer is null. The bytes of a callable inside are not modelled.
pub record Holder : Type 0 where
  pub held : Option ℕ
  pub is_local : Bool
  pub owning : Bool

abbrev pub new_holder : Holder
new_holder = record { held = none; is_local = false; owning = false }

-- The objects that are allocated.
abbrev pub Objects : Type 0
Objects = List ℕ

abbrev pub is_in : ℕ → Objects → Bool
is_in a [] = false
is_in a (b ∷ objects) = let rest = is_in a objects in if a == b then true else rest

abbrev pub without : ℕ → Objects → Objects
without a [] = []
without a (b ∷ objects) = let rest = without a objects in if a == b then objects else b ∷ rest

-- `delete` of an object that is not there is undefined.
unfoldable pub delete : ℕ → M Objects (Unit {0})
delete a objects = if is_in a objects then ok tt (without a objects) else undefined

unfoldable pub reset : Holder → M Objects Holder
unfolding delete
reset h objects = elim (not h.is_local && h.owning) [
  | false ↦ ok h objects
  | true ↦ elim h.held [
    | none ↦ ok h objects
    | some a ↦ elim (delete a objects) [
      | ok _ left ↦ ok (record h { held = none }) left
      | raise e left ↦ raise e left
      | undefined ↦ undefined
      | diverges ↦ diverges
    ]
  ]
]

-- The assignment of another holder that is moved: this one, and what is left of the other.
unfoldable pub move_assign : Holder → Holder → M Objects (Holder × Holder)
unfolding reset
move_assign this other objects = elim (reset this objects) [
  | ok _ left ↦
      ok
        (
          record { held = other.held; is_local = other.is_local; owning = other.owning },
          (if other.is_local then other else record other { held = none }),
        )
        left
  | raise e left ↦ raise e left
  | undefined ↦ undefined
  | diverges ↦ diverges
]

unfoldable pub move_construct : Holder → M Objects (Holder × Holder)
unfolding move_assign
move_construct other = move_assign new_holder other

unfoldable pub non_owning : ℕ → Holder
non_owning referree = record { held = some referree; is_local = false; owning = false }

-- `operator->` of the holder at an index.
unfoldable pub arrow : ℕ → Holder → Option Address
arrow index h =
    if h.is_local then some (inside index) else elim h.held [ none ↦ none | some a ↦ some (heap a) ]

abbrev pub Contents : Type 0
Contents = List (Bytes × Holder)

unfoldable pub add : Bytes → Holder → Contents → M Objects Contents
unfolding move_construct
add name function contents objects = elim (move_construct function objects) [
  | ok moved left ↦ ok (contents ++ ((name, moved.0) ∷ [])) left
  | raise e left ↦ raise e left
  | undefined ↦ undefined
  | diverges ↦ diverges
]

-- The loop of `getChild` over the entries from an index on.
unfoldable pub get_child_named : ℕ → Bytes → Contents → Option Address
unfolding arrow
get_child_named index name [] = none
get_child_named index name (entry ∷ entries) =
    let rest = get_child_named (suc index) name entries in
    if same_text entry.0 name then arrow index entry.1 else rest

-- `getChild` of an index, which is only compared with the size.
unfoldable pub get_child : ℤ → Contents → M Objects (Option Address)
unfolding arrow
get_child (pos index) contents objects = elim (get_elem? contents index) [
  | some entry ↦ ok (arrow index entry.1) objects
  | none ↦ ok none objects
]
get_child (negsuc n) contents objects = undefined

abbrev pub points_to : Option Address → Address → Bool
points_to none child = false
points_to (some a) child = same_address a child

-- The loop of `childName`; NO_SUCH_STRUCTURE is -1.
unfoldable pub child_name : ℕ → Address → Contents → Bytes × ℤ
unfolding arrow
child_name index child [] = ([], negsuc 0)
child_name index child (entry ∷ entries) =
    let rest = child_name (suc index) child entries in
    if points_to (arrow index entry.1) child then (entry.0, pos index) else rest
