-- ===== src/Download/Caching.antt =====
-- bomba_download_server.hpp, CachingFileServer: the files of a folder, read once and kept in a map. A
-- folder is what std::filesystem lists of it, in its order.
pub mod Lookup
pub mod Reload
use bomba.Base.{
  ℕ, ◌+◌, Bool, true, false, ◌&&◌, List, [], ◌∷◌, ◌++◌, Bytes, length, leb, if◌then◌else◌, Option,
  none, some,
}
use bomba.Base.Int.{pos}
use bomba.Base.Outcome.{
  M, Outcome, ok, raise, undefined, diverges, out_of_range, ◌>>=◌, ◌>>◌, return,
}
use bomba.Base.Text.{codes}
use bomba.Base.Text.{same_text}
use bomba.Download.Extensions.{find_text, extension_description}
use bomba.Http.Server.Respond.{Reply, known_size}

-- The entries of a folder.
mutual
  pub data Entry : Type 0 where
    file : Bytes → Bytes → Entry
    folder : Bytes → Entries → Entry

  pub data Entries : Type 0 where
    end : Entries
    more : Entry → Entries → Entries

pub record CachedFile : Type 0 where
  pub content_type : Bytes
  pub contents : Bytes

abbrev pub Cache : Type 0
Cache = List (Bytes × CachedFile)

-- `std::tolower` of each character, in the "C" locale.
abbrev pub to_lower : Bytes → Bytes
to_lower [] = []
to_lower (c ∷ cs) =
    let rest = to_lower cs in if leb b'A' c && leb c b'Z' then (c + 32) ∷ rest else c ∷ rest

-- `insert` of a map leaves an entry that is there already.
unfoldable pub insert : Bytes → CachedFile → Cache → Cache
insert key entry [] = (key, entry) ∷ []
insert key entry (first ∷ cache) =
    let rest = insert key entry cache in
    if same_text key first.0 then first ∷ cache else first ∷ rest

-- `addGeneratedFile` stores a function that holds these.
pub record Modifier : Type 0 where
  pub name : Bytes
  pub contents : Bytes

-- The server: its cache and its modifiers.
pub record CachingServer : Type 0 where
  pub cache : Cache
  pub modifiers : List Modifier

-- `extension` is of a file's name, as std::filesystem has it.
module _ (extension : Bytes → Bytes) where
  -- The constructor of CachedFile, with the contents that the file is found to have.
  unfoldable pub make_entry : Bytes → Bytes → M Cache CachedFile
  unfolding extension_description
  make_entry name contents cache = elim (extension_description (to_lower (extension name))) [
    | none ↦ raise out_of_range cache
    | some description ↦ ok (record { content_type = description; contents = contents }) cache
  ]

  unfoldable pub cache_at : Bytes → Bytes → Bytes → M Cache (Unit {0})
  unfolding make_entry insert
  cache_at name contents local_path = do
    entry ← make_entry name contents
    λ cache. ok tt (insert local_path entry cache)

  -- `cacheFile`, which caches the index as the folder too.
  unfoldable pub cache_file : Bytes → Bytes → Bytes → M Cache (Unit {0})
  unfolding cache_at
  cache_file name contents local_path = do
    (if same_text local_path (codes "/index.html")
        then cache_at name contents (codes "/")
        else return tt)
    cache_at name contents local_path

  unfoldable mutual
    pub cache_folder : Bytes → Entries → M Cache (Unit {0})
    cache_folder prefix' end = return tt
    cache_folder prefix' (more entry entries) = do
      cache_entry prefix' entry
      cache_folder prefix' entries

    pub cache_entry : Bytes → Entry → M Cache (Unit {0})
    cache_entry prefix' (file name contents) = cache_file name contents (prefix' ++ (b'/' ∷ name))
    cache_entry prefix' (folder name entries) = cache_folder (prefix' ++ (b'/' ∷ name)) entries

  unfoldable pub apply_modifier : Modifier → M Cache (Unit {0})
  unfolding cache_at
  apply_modifier modifier = cache_at (b'/' ∷ modifier.name) modifier.contents (b'/' ∷ modifier.name)

  unfoldable pub apply_modifiers : List Modifier → M Cache (Unit {0})
  unfolding apply_modifier
  apply_modifiers [] = return tt
  apply_modifiers (modifier ∷ modifiers) = do apply_modifier modifier; apply_modifiers modifiers

  -- What `reloadInternal` finds at the root.
  unfoldable pub reload : Entries → M CachingServer (Unit {0})
  unfolding cache_folder apply_modifiers
  reload root server = elim ((do cache_folder [] root; apply_modifiers server.modifiers) []) [
    | ok _ cache ↦ ok tt (record server { cache = cache })
    | raise e cache ↦ raise e (record server { cache = cache })
    | undefined ↦ undefined
    | diverges ↦ diverges
  ]

  unfoldable pub reset : Entries → M CachingServer (Unit {0})
  unfolding reload
  reset root server = reload root (record server { modifiers = [] })

  -- The modifier is kept only if it does not throw.
  unfoldable pub add_generated_file : Bytes → Bytes → M CachingServer (Unit {0})
  unfolding apply_modifier
  add_generated_file name contents server =
      let modifier : Modifier = record { name = name; contents = contents } in
      elim (apply_modifier modifier server.cache) [
        | ok _ cache ↦
            ok tt (record { cache = cache; modifiers = server.modifiers ++ (modifier ∷ []) })
        | raise e cache ↦ raise e (record server { cache = cache })
        | undefined ↦ undefined
        | diverges ↦ diverges
      ]

unfoldable pub get : Cache → Bytes → Reply
get cache path = elim (find_text path cache) [
  | none ↦ record { responses = []; success = some false }
  | some entry ↦ record {
    responses = known_size entry.content_type (pos (length entry.contents)) entry.contents ∷ [];
    success = some true;
  }
]
