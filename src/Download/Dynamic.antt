-- ===== src/Download/Dynamic.antt =====
-- bomba_download_server.hpp, DynamicFileServer: files that are read when they are asked for, and files
-- that a function provides.
pub mod Paths
pub mod Reading
use bomba.Base.{
  ℕ, zero, suc, ◌+◌, ◌-◌, min, Bool, true, false, ◌&&◌, ◌||◌, List, [], ◌∷◌, ◌++◌, Bytes, length,
  take, drop, ltb, ◌==◌, if◌then◌else◌, Option, none, some,
}
use bomba.Base.Int.{ℤ, pos, negsuc}
use bomba.Base.Outcome.{M, Outcome, ok, raise, undefined, diverges, out_of_range, continue}
use bomba.Base.Text.{codes}
use bomba.Core.Flags.{int_32}
use bomba.Core.Integer.{narrow}
use bomba.Download.Extensions.{FileSystem, find_text, extension_description}
use bomba.Http.Server.Respond.{Response, known_size, unknown_size}

-- The provider gives its file in chunks.
pub record GeneratedFile : Type 0 where
  pub chunks : List Bytes
  pub all_known_at_once : Bool

-- An entry that is assigned hides those before it.
unfoldable pub add_generated_file :
    Bytes → Bool → List Bytes → List (Bytes × GeneratedFile) → List (Bytes × GeneratedFile)
add_generated_file name all_known_at_once chunks files =
    (b'/' ∷ name, record { chunks = chunks; all_known_at_once = all_known_at_once }) ∷ files

-- `substr(find_last_of('.'))`; it throws where there is no dot.
unfoldable pub from_last_dot : Bytes → Option Bytes
from_last_dot [] = none
from_last_dot (c ∷ cs) = elim (from_last_dot cs) [
  | some extension ↦ some extension
  | none ↦ if c == b'.' then some (c ∷ cs) else none
]

abbrev pub concat : List Bytes → Bytes
concat [] = []
concat (chunk ∷ chunks) = chunk ++ concat chunks

abbrev known_chunks : Bytes → List Bytes → List Response
known_chunks description [] = []
known_chunks description (chunk ∷ chunks) =
    known_size description (pos (length chunk)) chunk ∷ known_chunks description chunks

unfoldable pub send_generated : GeneratedFile → Bytes → Outcome (List Response) Bool
unfolding extension_description from_last_dot
send_generated file path = elim (from_last_dot path) [
  | none ↦ raise out_of_range []
  | some extension ↦ elim (extension_description extension) [
    | none ↦ raise out_of_range []
    | some description ↦ ok true (
        if file.all_known_at_once
        then known_chunks description file.chunks
        else unknown_size description (concat file.chunks) ∷ [])
  ]
]

abbrev pub starts_with : Bytes → Bytes → Bool
starts_with [] text = true
starts_with (p ∷ ps) [] = false
starts_with (p ∷ ps) (c ∷ cs) = (p == c) && starts_with ps cs

-- `find` finds the pattern.
unfoldable pub contains : Bytes → Bytes → Bool
contains pattern' [] = starts_with pattern' []
contains pattern' (c ∷ cs) = starts_with pattern' (c ∷ cs) || contains pattern' cs

abbrev ends_in_slash : Bytes → Bool
ends_in_slash [] = false
ends_in_slash (c ∷ []) = c == b'/'
ends_in_slash (c ∷ d ∷ ds) = ends_in_slash (d ∷ ds)

abbrev pub first_is : ℕ → Bytes → Bool
first_is c [] = false
first_is c (d ∷ ds) = d == c

abbrev pub is_empty : Bytes → Bool
is_empty [] = true
is_empty (c ∷ cs) = false

-- The path that is looked for; `none` is a forbidden one.
unfoldable pub edit_path : Bytes → Option Bytes
unfolding contains
edit_path path =
    if is_empty path || ends_in_slash path
    then some (codes "/index.html")
    else if first_is b'.' path || (contains (codes "../") path || contains (codes "/.") path)
    then none
    else some path

-- What a round of the loop that copies a file comes to: it is over, or goes on from a position with
-- what was put out, or has a negative amount, which is no size of a span.
pub data Round : Type 0 where
  over : Round
  again : ℕ → Bytes → Round
  negative : Round

-- A block is read and put out. The number of bytes that are left is made an int before the smaller
-- number is taken.
unfoldable pub copy_round : ℕ → Bytes → Bytes → Round
unfolding narrow
copy_round position file output = elim (ltb position (length file)) [
  | false ↦ over
  | true ↦ elim (narrow int_32 (pos (length file - position))) [
    | negsuc _ ↦ negative
    | pos left ↦
        again (position + min 4096 left) (output ++ take (min 4096 left) (drop position file))
  ]
]

unfoldable pub copy_loop : ℕ → ℕ → Bytes → M Bytes (Unit {0})
unfolding copy_round
copy_loop zero position file output = diverges
copy_loop (suc fuel) position file output = elim (copy_round position file output) [
  | over ↦ ok tt output
  | again next copied ↦ copy_loop fuel next file copied
  | negative ↦ undefined
]

module _ (fs : FileSystem) (root : Bytes) where
  unfoldable pub full_path : Bytes → Bytes
  full_path edited = fs.append root (drop 1 edited)

  -- The responses are the state. A round that copies a byte leaves one fewer, so the fuel runs out
  -- only where a round copies nothing, and that round is repeated without an end.
  unfoldable pub get : List (Bytes × GeneratedFile) → Bytes → Outcome (List Response) Bool
  unfolding send_generated edit_path full_path extension_description copy_loop
  get generated path = elim (find_text path generated) [
    | some file ↦ send_generated file path
    | none ↦ elim (edit_path path) [
      | none ↦ ok false []
      | some edited ↦ elim (fs.regular_file (full_path edited)) [
        | none ↦ ok false []
        | some file ↦ elim (extension_description (fs.extension (full_path edited))) [
          | none ↦ raise out_of_range []
          | some description ↦
              continue (copy_loop (suc (length file)) 0 file []) (λ _. [])
                (λ _ copied. ok true (known_size description (pos (length file)) copied ∷ []))
        ]
      ]
    ]
  ]
