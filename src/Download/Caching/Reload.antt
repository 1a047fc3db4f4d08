-- ===== src/Download/Caching/Reload.antt =====
-- What the cache holds after a reload: of all the files below the root and then the provided ones, the
-- first at each path.
use bomba.Base.{
  List, [], ◌∷◌, ◌++◌, append_assoc, append-nil, Bytes, if◌then◌else◌, Bool-cases, inl, inr, some,
  All, ◌≡◌, refl, sym, ap, ◌∙◌,
}
use bomba.Base.Outcome.{M, ok, ◌>>◌, >>=-ok, >>=_assoc, >>=_cong, >>=_cong_left, >>-return, return}
use bomba.Base.Text.{codes}
use bomba.Download.Caching.{
  Entry, file, folder, Entries, end, more, CachedFile, Cache, to_lower, insert, make_entry,
  cache_at, cache_file, cache_folder, cache_entry, Modifier, apply_modifiers, CachingServer, reload,
  get,
}
use bomba.Base.Text.{same_text}
use bomba.Download.Extensions.{find_text, extension_description}
use bomba.Download.Caching.Lookup.{find_cong_left, find-insert, get_cong}

-- A file to be cached, and where.
pub record Item : Type 0 where
  pub name : Bytes
  pub contents : Bytes
  pub local_path : Bytes

-- The index is the folder too, in front of itself.
abbrev pub index_items : Bytes → Bytes → Bytes → List Item
index_items name contents local_path =
    if same_text local_path (codes "/index.html")
    then record { name = name; contents = contents; local_path = codes "/" } ∷ []
    else []

-- The files of a folder and of those in it.
unfoldable mutual
  pub items_of : Bytes → Entries → List Item
  items_of prefix' end = []
  items_of prefix' (more entry entries) = items_at prefix' entry ++ items_of prefix' entries

  pub items_at : Bytes → Entry → List Item
  items_at prefix' (file name contents) =
      let local_path = prefix' ++ (b'/' ∷ name) in
      index_items name contents local_path
      ++ (record { name = name; contents = contents; local_path = local_path } ∷ [])
  items_at prefix' (folder name entries) = items_of (prefix' ++ (b'/' ∷ name)) entries

abbrev pub provided : List Modifier → List Item
provided [] = []
provided (m ∷ ms) =
    record { name = b'/' ∷ m.name; contents = m.contents; local_path = b'/' ∷ m.name } ∷ provided ms

module _ (extension : Bytes → Bytes) where
  unfoldable pub cache_all : List Item → M Cache (Unit {0})
  cache_all [] = return tt
  cache_all (item ∷ items) = do
    cache_at extension item.name item.contents item.local_path
    cache_all items

  cache_all-append :
      (xs ys : List Item) (c : Cache) → cache_all (xs ++ ys) c ≡ (cache_all xs >> cache_all ys) c
  unfolding cache_all
  cache_all-append [] ys c = refl
  cache_all-append (x ∷ xs) ys c =
      let first = cache_at extension x.name x.contents x.local_path in
      >>=_cong first (λ _. cache_all (xs ++ ys)) (λ _. cache_all xs >> cache_all ys) c
        (λ _. cache_all-append xs ys)
      ∙ sym (>>=_assoc first (λ _. cache_all xs) (λ _. cache_all ys) c)

  cache_file-items :
      (name contents local_path : Bytes) (c : Cache)
      → cache_file extension name contents local_path c
        ≡ cache_all
            (index_items name contents local_path
              ++ (record { name = name; contents = contents; local_path = local_path } ∷ []))
            c
  unfolding cache_file cache_all
  cache_file-items name contents local_path c =
      let once = cache_at extension name contents local_path in
      let index = cache_at extension name contents (codes "/") in
      elim (Bool-cases (same_text local_path (codes "/index.html"))) [
        | inl e ↦
            rw (cache_file, e)
              (>>=_cong index (λ _. once) (λ _. once >> return tt) c
                (λ _ t. sym (>>-return once t)))
        | inr e ↦ rw (cache_file, e) (sym (>>-return once c))
      ]

  mutual
    unfolding cache_folder items_of cache_all

    cache_folder-items :
        (prefix' : Bytes) (entries : Entries) (c : Cache)
        → cache_folder extension prefix' entries c ≡ cache_all (items_of prefix' entries) c
    cache_folder-items prefix' end c = refl
    cache_folder-items prefix' (more entry entries) c =
        >>=_cong_left (cache_entry extension prefix' entry) (cache_all (items_at prefix' entry))
          (λ _. cache_folder extension prefix' entries) c (cache_entry-items prefix' entry c)
        ∙ >>=_cong (cache_all (items_at prefix' entry))
            (λ _. cache_folder extension prefix' entries)
            (λ _. cache_all (items_of prefix' entries)) c
            (λ _ t. cache_folder-items prefix' entries t)
        ∙ sym (cache_all-append (items_at prefix' entry) (items_of prefix' entries) c)

    cache_entry-items :
        (prefix' : Bytes) (entry : Entry) (c : Cache)
        → cache_entry extension prefix' entry c ≡ cache_all (items_at prefix' entry) c
    cache_entry-items prefix' (file name contents) c =
        cache_file-items name contents (prefix' ++ (b'/' ∷ name)) c
    cache_entry-items prefix' (folder name entries) c =
        cache_folder-items (prefix' ++ (b'/' ∷ name)) entries c

  apply_modifiers-items :
      (ms : List Modifier) (c : Cache) → apply_modifiers extension ms c ≡ cache_all (provided ms) c
  unfolding apply_modifiers cache_all
  apply_modifiers-items [] c = refl
  apply_modifiers-items (m ∷ ms) c =
      >>=_cong (cache_at extension (b'/' ∷ m.name) m.contents (b'/' ∷ m.name))
        (λ _. apply_modifiers extension ms) (λ _. cache_all (provided ms)) c
        (λ _. apply_modifiers-items ms)

  -- All that a reload caches.
  abbrev pub all_items : Entries → List Modifier → List Item
  all_items root modifiers = items_of [] root ++ provided modifiers

  reload_items :
      (root : Entries) (ms : List Modifier)
      → (cache_folder extension [] root >> apply_modifiers extension ms) []
        ≡ cache_all (all_items root ms) []
  reload_items root ms =
      >>=_cong_left (cache_folder extension [] root) (cache_all (items_of [] root))
        (λ _. apply_modifiers extension ms) [] (cache_folder-items [] root [])
      ∙ >>=_cong (cache_all (items_of [] root)) (λ _. apply_modifiers extension ms)
          (λ _. cache_all (provided ms)) [] (λ _ t. apply_modifiers-items ms t)
      ∙ sym (cache_all-append (items_of [] root) (provided ms) [])

  -- A file whose extension has a description.
  abbrev pub IsDescribed : Item → Type 0
  IsDescribed item =
      (description : Bytes) × (extension_description (to_lower (extension item.name))
        ≡ some description)

  abbrev pub stored : (items : List Item) → All IsDescribed items → Cache
  stored [] h = []
  stored (item ∷ items) (d, h) =
      (item.local_path, record { content_type = d.0; contents = item.contents }) ∷ stored items h

  -- The paths of a cache, one entry after another inserted.
  abbrev insert_all : Cache → Cache → Cache
  insert_all [] c = c
  insert_all (x ∷ xs) c = insert_all xs (insert x.0 x.1 c)

  cache_at-entry :
      (name contents local_path description : Bytes)
      → extension_description (to_lower (extension name)) ≡ some description
      → (c : Cache)
      → cache_at extension name contents local_path c
        ≡ ok tt (insert local_path (record { content_type = description; contents = contents }) c)
  unfolding cache_at make_entry
  cache_at-entry name contents local_path description e c = rw (cache_at, make_entry, e) refl

  cache_all-stored :
      (items : List Item) (h : All IsDescribed items) (c : Cache)
      → cache_all items c ≡ ok tt (insert_all (stored items h) c)
  unfolding cache_all
  cache_all-stored [] h c = refl
  cache_all-stored (item ∷ items) (d, h) c =
      let entry : CachedFile = record { content_type = d.0; contents = item.contents } in
      >>=-ok (cache_at extension item.name item.contents item.local_path) (λ _. cache_all items)
        {s = c} (cache_at-entry item.name item.contents item.local_path d.0 d.1 c)
      ∙ cache_all-stored items h (insert item.local_path entry c)

  find_insert_all :
      (xs c : Cache) (path : Bytes) → find_text path (insert_all xs c) ≡ find_text path (c ++ xs)
  find_insert_all [] c path = ap (λ (l : Cache). find_text path l) (sym (append-nil c))
  find_insert_all (x ∷ xs) c path =
      find_insert_all xs (insert x.0 x.1 c) path
      ∙ find_cong_left (insert x.0 x.1 c) (c ++ (x ∷ [])) xs path (find-insert x.0 x.1 c path)
      ∙ ap (λ (l : Cache). find_text path l) (append_assoc c (x ∷ []) xs)

  -- Where every file below the root and every provided one has an extension, a reload succeeds and keeps
  -- what is provided; afterwards the answer to any path is as if all of these files were listed, those
  -- of the folder in their order and then the provided ones, and the first of that path were sent.
  pub reload-get :
      (root : Entries) (server : CachingServer) (path : Bytes)
      → (described : All IsDescribed (all_items root server.modifiers))
      → (after : CachingServer) × (reload extension root server ≡ ok tt after)
        × (after.modifiers ≡ server.modifiers)
        × (get after.cache path ≡ get (stored (all_items root server.modifiers) described) path)
  unfolding reload get
  reload-get root server path described =
      let items = all_items root server.modifiers in
      let cache = insert_all (stored items described) [] in
      let after : CachingServer = record server { cache = cache } in
      let run = reload_items root server.modifiers ∙ cache_all-stored items described [] in
      (
        after,
        rw (reload, run) refl,
        refl,
        get_cong cache (stored items described) path
            (find_insert_all (stored items described) [] path),
      )
