-- ===== src/Dynamic/Children.antt =====
-- The name and the index of a child lead to it, and a holder that is moved from no longer owns.
use bomba.Base.{
  ℕ, suc, ◌+◌, true, false, [], ◌∷◌, ◌++◌, Bytes, get_elem?, length, if_true, if_false, Option,
  none, some, ◌≡◌, refl, ap, ◌∙◌, arith,
}
use bomba.Base.Int.{ℤ, pos}
use bomba.Base.Outcome.{ok}
use bomba.Base.Text.{same_text}
use bomba.Dynamic.{
  Address, heap, inside, same_address, Holder, Objects, arrow, Contents, get_child_named, get_child,
  points_to, child_name, is_in, without, delete, reset, move_construct,
}

-- No holder of the entries points to the child, and none has the name.
abbrev pub IsElsewhere : ℕ → Address → Contents → Type 0
IsElsewhere index child [] = Unit
IsElsewhere index child (entry ∷ entries) =
    (points_to (arrow index entry.1) child ≡ false) × IsElsewhere (suc index) child entries

abbrev pub IsNewName : Bytes → Contents → Type 0
IsNewName name [] = Unit
IsNewName name (entry ∷ entries) = (same_text entry.0 name ≡ false) × IsNewName name entries

same_address_refl : (a : Address) → same_address a a ≡ true
same_address_refl (heap n) = ground arith
same_address_refl (inside n) = ground arith

same_text_refl : (name : Bytes) → same_text name name ≡ true
same_text_refl [] = refl
same_text_refl (c ∷ cs) = ground (arith, same_text_refl cs)

child_name-behind :
    (index : ℕ) (child : Address) (before after : Contents) (name : Bytes) (h : Holder)
    → IsElsewhere index child before
    → arrow (index + length before) h ≡ some child
    → child_name index child (before ++ ((name, h) ∷ after)) ≡ (name, pos (index + length before))
unfolding child_name
child_name-behind index child [] after name h elsewhere at =
    let here : points_to (arrow index h) child ≡ true =
      ap (λ (n : ℕ). points_to (arrow n h) child) {x = index} {y = index + 0} (omega arith)
      ∙ ap (λ (o : Option Address). points_to o child) at
      ∙ same_address_refl child in
    if_true _ _ _ here ∙ ap (λ (n : ℕ). (name, pos n)) {x = index} {y = index + 0} (omega arith)
child_name-behind index child (entry ∷ before) after name h elsewhere at =
    if_false _ _ _ elsewhere.0
    ∙ child_name-behind (suc index) child before after name h elsewhere.1 (
        ap (λ (n : ℕ). arrow n h) {x = suc index + length before} {y = index + suc (length before)}
          (omega arith)
        ∙ at)
    ∙ ap (λ (n : ℕ). (name, pos n)) {x = suc index + length before}
        {y = index + suc (length before)} (omega arith)

get_child_named-behind :
    (index : ℕ) (child : Address) (before after : Contents) (name : Bytes) (h : Holder)
    → IsNewName name before
    → arrow (index + length before) h ≡ some child
    → get_child_named index name (before ++ ((name, h) ∷ after)) ≡ some child
unfolding get_child_named
get_child_named-behind index child [] after name h new at =
    if_true _ _ _ (same_text_refl name)
    ∙ ap (λ (n : ℕ). arrow n h) {x = index} {y = index + 0} (omega arith)
    ∙ at
get_child_named-behind index child (entry ∷ before) after name h new at =
    if_false _ _ _ new.0
    ∙ get_child_named-behind (suc index) child before after name h new.1 (
        ap (λ (n : ℕ). arrow n h) {x = suc index + length before} {y = index + suc (length before)}
          (omega arith)
        ∙ at)

get_elem?-behind :
    (before after : Contents) (entry : Bytes × Holder)
    → get_elem? (before ++ (entry ∷ after)) (length before) ≡ some entry
get_elem?-behind [] after entry = refl
get_elem?-behind (first ∷ before) after entry = get_elem?-behind before after entry

get_child-behind :
    (child : Address) (before after : Contents) (name : Bytes) (h : Holder) (objects : Objects)
    → arrow (length before) h ≡ some child
    → get_child (pos (length before)) (before ++ ((name, h) ∷ after)) objects
      ≡ ok (some child) objects
unfolding get_child
get_child-behind child before after name h objects at =
    rw (get_child, get_elem?-behind before after (name, h))
      (ap (λ (o : Option Address). ok o objects) at)

-- Where no earlier entry holds the child or has its name, what `childName` says of it leads back to it:
-- the name by one `getChild`, the index by the other.
pub child_name-get_child :
    (child : Address) (before after : Contents) (name : Bytes) (h : Holder) (objects : Objects)
    → IsElsewhere 0 child before
    → IsNewName name before
    → arrow (length before) h ≡ some child
    → let contents = before ++ ((name, h) ∷ after) in
      (child_name 0 child contents ≡ (name, pos (length before)))
      × (get_child (child_name 0 child contents).1 contents objects ≡ ok (some child) objects)
      × (get_child_named 0 (child_name 0 child contents).0 contents ≡ some child)
child_name-get_child child before after name h objects elsewhere new at =
    let contents = before ++ ((name, h) ∷ after) in
    let from_0 : arrow (0 + length before) h ≡ some child =
      ap (λ (n : ℕ). arrow n h) {x = 0 + length before} {y = length before} (omega arith) ∙ at in
    let named : child_name 0 child contents ≡ (name, pos (length before)) =
      child_name-behind 0 child before after name h elsewhere from_0
      ∙ ap (λ (n : ℕ). (name, pos n)) {x = 0 + length before} {y = length before} (omega arith) in
    (
      named,
      ap (λ (l : Bytes × ℤ). get_child l.1 contents objects) named
          ∙ get_child-behind child before after name h objects at,
      ap (λ (l : Bytes × ℤ). get_child_named 0 l.0 contents) named
          ∙ get_child_named-behind 0 child before after name h new from_0,
    )

-- A holder that owns an object and is moved into a new one leaves the object alone when it is destroyed,
-- and the new one deletes it, whatever is allocated beside it.
pub move_construct-reset :
    (h : Holder) (a : ℕ) (objects : Objects)
    → h.is_local ≡ false
    → h.owning ≡ true
    → h.held ≡ some a
    → is_in a objects ≡ true
    → (this : Holder) × (other : Holder) × (move_construct h objects ≡ ok (this, other) objects)
      × (reset other objects ≡ ok other objects)
      × (reset this objects ≡ ok (record this { held = none }) (without a objects))
unfolding move_construct reset delete
move_construct-reset h a objects outside owns holds live =
    let left : Holder = record h { held = none } in
    (
      h,
      left,
      ap (λ (o : Holder). ok (h, o) objects) (if_false _ _ _ outside),
      ground (arith, outside, owns),
      ground (arith, outside, owns, holds, live),
    )
