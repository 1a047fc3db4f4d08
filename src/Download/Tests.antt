-- ===== src/Download/Tests.antt =====
-- The theorems on the file servers at concrete files, and runs.
use bomba.Base.{
  ℕ, ◌^◌, [], ◌∷◌, ◌++◌, All, Bytes, length, replicate, length-replicate, none, some, true,
  if◌then◌else◌, ◌⊎◌, ◌≡◌, refl,
}
use bomba.Base.Int.{pos}
use bomba.Base.Outcome.{ok, raise, diverges, out_of_range}
use bomba.Base.Text.{codes}
use bomba.Download.Extensions.{FileSystem, find_text, extension_description}
use bomba.Download.Dynamic
use bomba.Download.Dynamic.{
  GeneratedFile, first_is, edit_path, again, copy_round, copy_loop, from_last_dot,
}
use bomba.Download.Dynamic.Paths.{SendsNothing, SendsVisible, get-SendsVisible}
use bomba.Download.Dynamic.Reading.{copy_loop-endless}
use bomba.Download.Caching
use bomba.Download.Caching.{Entries, end, more, file, folder, CachingServer, Modifier, reload}
use bomba.Download.Caching.Reload
use bomba.Download.Caching.Reload.{IsDescribed, all_items, stored, reload-get}
use bomba.Http.Server.Respond.{known_size}

abbrev extension_of : Bytes → Bytes
extension_of path = elim (from_last_dot path) [ some extension ↦ extension | none ↦ [] ]

-- Two files, one of them not below the root, and a path that an absolute one is appended to.
abbrev files : FileSystem
files = record {
  append = λ root path. if first_is b'/' path then path else root ++ (b'/' ∷ path);
  regular_file = λ path.
      find_text path
        ((codes "/srv/a.html", codes "hi") ∷ (codes "/etc/motd.txt", codes "secret") ∷ []);
  extension = extension_of;
}

get-SendsVisible_example :
    SendsNothing (Dynamic.get files (codes "/srv") [] (codes "/a.html"))
    ⊎ SendsVisible files (codes "/srv") (Dynamic.get files (codes "/srv") [] (codes "/a.html"))
get-SendsVisible_example = get-SendsVisible files (codes "/srv") [] (codes "a.html") refl refl

sends_file :
    Dynamic.get files (codes "/srv") [] (codes "/a.html")
    ≡ ok true (known_size (codes "text/html") (pos 2) (codes "hi") ∷ [])
unfolding Dynamic.get from_last_dot
sends_file = refl

-- A second slash makes the rest of the path an absolute one, which replaces the root.
sends_absolute :
    Dynamic.get files (codes "/srv") [] (codes "//etc/motd.txt")
    ≡ ok true (known_size (codes "application/txt") (pos 6) (codes "secret") ∷ [])
unfolding Dynamic.get from_last_dot
sends_absolute = refl

-- Without a slash in front, the first character is cut off, and what is behind it may be hidden.
looks_for_hidden : edit_path (codes "a.ssh") ≡ some (codes "a.ssh")
unfolding edit_path
looks_for_hidden = refl

file_of : (n : ℕ) → (file : Bytes) × (length file ≡ n)
file_of n = (replicate n 0, length-replicate n 0)

copy_loop-endless_example :
    (copy_round 0 (file_of (2 ^ 32)).0 [] ≡ again 0 [])
    × (copy_loop 9 0 (file_of (2 ^ 32)).0 [] ≡ diverges)
copy_loop-endless_example = copy_loop-endless 9 (file_of (2 ^ 32)).0 [] (file_of (2 ^ 32)).1

-- An index, a folder with a script, and a provided style sheet.
abbrev site : Entries
site =
    more (file (codes "index.html") (codes "home"))
      (more (folder (codes "js") (more (file (codes "a.JS") (codes "run")) end)) end)

abbrev server : CachingServer
server = record {
  cache = [];
  modifiers = record { name = codes "s.css"; contents = codes "b{}" } ∷ [];
}

site_described : All (IsDescribed extension_of) (all_items extension_of site server.modifiers)
unfolding from_last_dot Reload.items_of extension_description
site_described = (
  (codes "text/html", refl),
  ((codes "text/html", refl), ((codes "text/javascript", refl), ((codes "text/css", refl), tt))),
)

reload-get_example :
    (after : CachingServer) × (reload extension_of site server ≡ ok tt after)
    × (after.modifiers ≡ server.modifiers)
    × (Caching.get after.cache (codes "/js/a.JS")
        ≡ Caching.get
            (stored extension_of (all_items extension_of site server.modifiers) site_described)
            (codes "/js/a.JS"))
reload-get_example = reload-get extension_of site server (codes "/js/a.JS") site_described

-- A file without an extension makes a reload throw.
no_extension :
    reload extension_of (more (file (codes "LICENSE") []) end) server ≡ raise out_of_range server
unfolding reload from_last_dot Caching.cache_file
no_extension = refl
