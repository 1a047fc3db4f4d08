-- ===== src/Download/Extensions.antt =====
-- bomba_download_server.hpp, FileServerBase: the types of files by their extensions, and the standard
-- library's file system as a parameter.
use bomba.Base.Text.{same_text}
use bomba.Base.{List, [], ◌∷◌, ◌++◌, Bytes, Option, none, some, if◌then◌else◌}
use bomba.Base.Text.{codes}

-- What is asked of std::filesystem: `append` of a path, whether a path is a regular file and its
-- content, and `extension`.
pub record FileSystem : Type 0 where
  pub append : Bytes → Bytes → Bytes
  pub regular_file : Bytes → Option Bytes
  pub extension : Bytes → Bytes

-- A map with strings for keys.
abbrev pub find_text : {A : Type 0} → Bytes → List (Bytes × A) → Option A
find_text key [] = none
find_text key (entry ∷ entries) =
    let rest = find_text key entries in if same_text key entry.0 then some entry.1 else rest

unfoldable pub extensions : List (Bytes × Bytes)
extensions =
    (codes ".html", codes "text/html")
    ∷ (codes ".js", codes "text/javascript")
    ∷ (codes ".css", codes "text/css")
    ∷ (codes ".json", codes "application/json")
    ∷ (codes ".jpg", codes "image/jpeg")
    ∷ (codes ".jpeg", codes "image/jpeg")
    ∷ (codes ".png", codes "image/png")
    ∷ (codes ".gif", codes "image/gif")
    ∷ (codes ".ico", codes "image/vnd.microsoft.icon")
    ∷ (codes ".svg", codes "image/svg+xml")
    ∷ (codes ".bmp", codes "image/bmp")
    ∷ (codes ".ttf", codes "font/ttf")
    ∷ (codes ".gz", codes "application/gzip")
    ∷ (codes ".xml", codes "application/xml")
    ∷ []

-- `substr(1)` of an empty extension throws, which is `none`.
improvised : Bytes → Option Bytes
improvised [] = none
improvised (dot ∷ name) = some (codes "application/" ++ name)

unfoldable pub extension_description : Bytes → Option Bytes
unfolding extensions improvised
extension_description extension = elim (find_text extension extensions) [
  | some description ↦ some description
  | none ↦ improvised extension
]
