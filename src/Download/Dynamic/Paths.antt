-- ===== src/Download/Dynamic/Paths.antt =====
-- Which files DynamicFileServer can be asked for.
use bomba.Base.{
  ℕ, ◌^◌, ◌≤◌, ◌<◌, ltb, ltb→lt, Bool, true, false, ◌||◌, List, [], ◌∷◌, Bytes, length, drop, ◌==◌,
  if◌then◌else◌, Bool-cases, inl, inr, ◌⊎◌, none, some, Option-cases, All, ◌≡◌, refl, sym, ◌∙◌,
  arith,
}
use mathlib.Core.Path.{subst}
use bomba.Base.Int.{pos}
use bomba.Base.Outcome.{Outcome, ok, raise, out_of_range}
use bomba.Base.Text.{codes}
use bomba.Download.Dynamic.{
  GeneratedFile, contains, is_empty, ends_in_slash, first_is, edit_path, full_path, get,
}
use bomba.Download.Dynamic.Reading.{copy_loop-whole}
use bomba.Download.Extensions.{FileSystem, find_text, extension_description}
use bomba.Http.Server.Respond.{Response, known_size}

-- The parts of a path that slashes separate: the first one, and the others.
abbrev pub first_component : Bytes → Bytes
first_component [] = []
first_component (c ∷ cs) = let rest = first_component cs in if c == b'/' then [] else c ∷ rest

abbrev pub other_components : Bytes → List Bytes
other_components [] = []
other_components (c ∷ cs) =
    let rest = other_components cs in if c == b'/' then first_component cs ∷ rest else rest

abbrev pub components : Bytes → List Bytes
components path = first_component path ∷ other_components path

-- A name that does not begin with a dot.
abbrev pub IsVisible : Bytes → Type 0
IsVisible name = first_is b'.' name ≡ false

first_component-IsVisible :
    (path : Bytes) → first_is b'.' path ≡ false → IsVisible (first_component path)
first_component-IsVisible [] h = refl
first_component-IsVisible (c ∷ cs) h = elim (Bool-cases (c == b'/')) [
  | inl e ↦ rw e refl
  | inr e ↦ rw e h
]

behind_slash :
    (c : ℕ) (cs : Bytes)
    → (c == b'/') ≡ true
    → contains (codes "/.") (c ∷ cs) ≡ false
    → first_is b'.' cs ≡ false
unfolding contains
behind_slash c [] e h = refl
behind_slash c (d ∷ ds) e h = ground (arith, e, h)

contains-tail :
    (c : ℕ) (cs : Bytes) → contains (codes "/.") (c ∷ cs) ≡ false → contains (codes "/.") cs ≡ false
unfolding contains
contains-tail c cs h = ground (arith, h)

other_components-IsVisible :
    (path : Bytes) → contains (codes "/.") path ≡ false → All IsVisible (other_components path)
other_components-IsVisible [] h = tt
other_components-IsVisible (c ∷ cs) h =
    let rest = other_components-IsVisible cs (contains-tail c cs h) in
    elim (Bool-cases (c == b'/')) [
      | inl e ↦ rw e ((first_component-IsVisible cs (behind_slash c cs e h), rest))
      | inr e ↦ rw e rest
    ]

edit_path-folder :
    (path : Bytes)
    → (is_empty path || ends_in_slash path) ≡ true
    → edit_path path ≡ some (codes "/index.html")
unfolding edit_path
edit_path-folder path h = rw (edit_path, h) refl

edit_path-forbidden :
    (path : Bytes)
    → (is_empty path || ends_in_slash path) ≡ false
    → (first_is b'.' path || (contains (codes "../") path || contains (codes "/.") path)) ≡ true
    → edit_path path ≡ none
unfolding edit_path
edit_path-forbidden path h k = rw (edit_path, h, k) refl

edit_path-allowed :
    (path : Bytes)
    → (is_empty path || ends_in_slash path) ≡ false
    → (first_is b'.' path || (contains (codes "../") path || contains (codes "/.") path)) ≡ false
    → edit_path path ≡ some path
unfolding edit_path
edit_path-allowed path h k = rw (edit_path, h, k) refl

some-is : {A : Type 0} {a b : A} → some a ≡ some b → a ≡ b
some-is h = cc

-- A path below the root: it does not begin with a slash, and none of its parts begins with a dot.
abbrev pub IsBelow : Bytes → Type 0
IsBelow path = (first_is b'/' path ≡ false) × All IsVisible (components path)

-- What is looked for below the root, of a path that begins with one slash.
edit_path-IsBelow :
    (rest edited : Bytes)
    → first_is b'/' rest ≡ false
    → edit_path (b'/' ∷ rest) ≡ some edited
    → IsBelow (drop 1 edited)
edit_path-IsBelow rest edited one_slash h =
    let path : Bytes = b'/' ∷ rest in
    let test = first_is b'.' path || (contains (codes "../") path || contains (codes "/.") path) in
    elim (Bool-cases (is_empty path || ends_in_slash path)) [
      | inl folder ↦
          let same = some-is (sym (edit_path-folder path folder) ∙ h) in
          subst (λ (l : Bytes). IsBelow (drop 1 l)) same (refl, (refl, tt))
      | inr file ↦ elim (Bool-cases test) [
        | inl forbidden ↦
            let impossible : none ≡ some edited =
              sym (edit_path-forbidden path file forbidden) ∙ h in
            absurd (cc)
        | inr allowed ↦
            let same = some-is (sym (edit_path-allowed path file allowed) ∙ h) in
            let no_dot : contains (codes "/.") path ≡ false = ground (arith, allowed) in
            subst (λ (l : Bytes). IsBelow (drop 1 l)) same
              (
                one_slash,
                (
                  first_component-IsVisible rest (behind_slash b'/' rest refl no_dot),
                  other_components-IsVisible rest (contains-tail b'/' rest no_dot),
                ),
              )
      ]
    ]

-- A call that starts no response: the path is forbidden or not that of a file, or there is no
-- description of the file's extension.
abbrev pub SendsNothing : Outcome (List Response) Bool → Type 0
SendsNothing result = (result ≡ ok false []) ⊎ (result ≡ raise out_of_range [])

-- A call that sends one file from below the root with its size, unless that file has two gibibytes or
-- more.
pub record SendsVisible (fs : FileSystem) (root : Bytes) (result : Outcome (List Response) Bool)
    : Type 0 where
  pub below : Bytes
  pub file : Bytes
  pub description : Bytes
  pub is_below : IsBelow below
  pub is_file : fs.regular_file (fs.append root below) ≡ some file
  pub sends :
      (result ≡ ok true (known_size description (pos (length file)) file ∷ []))
      ⊎ (2 ^ 31 ≤ length file)

module _ (fs : FileSystem) (root : Bytes) (generated : List (Bytes × GeneratedFile)) where
  get-small :
      (path edited file description : Bytes)
      → find_text path generated ≡ none
      → edit_path path ≡ some edited
      → fs.regular_file (full_path fs root edited) ≡ some file
      → extension_description (fs.extension (full_path fs root edited)) ≡ some description
      → length file < 2 ^ 31
      → get fs root generated path ≡ ok true (known_size description (pos (length file)) file ∷ [])
  unfolding get
  get-small path edited file description unknown found there described small =
      rw (get, unknown, found, there, described, copy_loop-whole file [] small) refl

  get-edited :
      (path edited : Bytes)
      → find_text path generated ≡ none
      → edit_path path ≡ some edited
      → IsBelow (drop 1 edited)
      → SendsNothing (get fs root generated path)
        ⊎ SendsVisible fs root (get fs root generated path)
  unfolding get full_path
  get-edited path edited unknown found is_below =
      elim (Option-cases (fs.regular_file (full_path fs root edited))) [
        | inl missing ↦ inl (inl (rw (get, unknown, found, missing) refl))
        | inr there ↦
            elim (Option-cases (extension_description (fs.extension (full_path fs root edited)))) [
              | inl nameless ↦ inl (inr (rw (get, unknown, found, there.1, nameless) refl))
              | inr described ↦ inr (record {
                below = drop 1 edited;
                file = there.0;
                description = described.0;
                is_below = is_below;
                is_file = there.1;
                sends = elim (Bool-cases (ltb (length there.0) (2 ^ 31))) [
                  | inl small ↦ inl (
                      get-small path edited there.0 described.0 unknown found there.1 described.1
                        (ltb→lt _ _ small))
                  | inr large ↦ inr (ground (arith, large))
                ];
              })
            ]
      ]

  -- Asked for a path that begins with exactly one slash and is not that of a provided file, the server
  -- returns false or throws, and sends nothing; or it sends exactly one regular file with its size,
  -- unless that has two gibibytes or more: the file that the file system finds where it appends to the
  -- root a path that does not begin with a slash, and whose parts do not begin with a dot.
  pub get-SendsVisible :
      (rest : Bytes)
      → find_text (b'/' ∷ rest) generated ≡ none
      → first_is b'/' rest ≡ false
      → SendsNothing (get fs root generated (b'/' ∷ rest))
        ⊎ SendsVisible fs root (get fs root generated (b'/' ∷ rest))
  unfolding get
  get-SendsVisible rest unknown one_slash = elim (Option-cases (edit_path (b'/' ∷ rest))) [
    | inl forbidden ↦ inl (inl (rw (get, unknown, forbidden) refl))
    | inr found ↦
        get-edited (b'/' ∷ rest) found.0 unknown found.1
          (edit_path-IsBelow rest found.0 one_slash found.1)
  ]
