-- ===== src/Download/Caching/Lookup.antt =====
-- Looking for a path in a cache that entries are inserted into.
use bomba.Base.{
  true, false, [], ◌∷◌, ◌++◌, Bytes, ==_iff, if◌then◌else◌, Bool-cases, inl, inr, Option, none,
  some, ◌≡◌, refl, sym, ap, ◌∙◌, arith,
}
use bomba.Download.Caching.{CachedFile, Cache, insert, get}
use bomba.Base.Text.{same_text}
use bomba.Download.Extensions.{find_text}

same_text-eq : (a b : Bytes) → same_text a b ≡ true → a ≡ b
same_text-eq [] [] h = refl
same_text-eq [] (d ∷ ds) h = absurd (cc)
same_text-eq (c ∷ cs) [] h = absurd (cc)
same_text-eq (c ∷ cs) (d ∷ ds) h =
    let first : c ≡ d = (==_iff c d).0 (ground (arith, h)) in
    let rest : cs ≡ ds = same_text-eq cs ds (ground (arith, h)) in cc

abbrev or_else : Option CachedFile → Option CachedFile → Option CachedFile
or_else none o = o
or_else (some x) o = some x

or_else-none : (o : Option CachedFile) → or_else o none ≡ o
or_else-none none = refl
or_else-none (some x) = refl

if_key :
    (path key : Bytes) (entry : CachedFile)
    → same_text path key ≡ false
    → find_text path ((key, entry) ∷ []) ≡ none
if_key path key entry h = rw h refl

find-append :
    (path : Bytes) (c xs : Cache)
    → find_text path (c ++ xs) ≡ or_else (find_text path c) (find_text path xs)
find-append path [] xs = refl
find-append path (x ∷ c) xs = elim (Bool-cases (same_text path x.0)) [
  | inl e ↦ rw e refl
  | inr e ↦ rw e (find-append path c xs)
]

-- Looking for a path in a cache and, failing that, in another.
pub find_cong_left :
    (c d xs : Cache) (path : Bytes)
    → find_text path c ≡ find_text path d
    → find_text path (c ++ xs) ≡ find_text path (d ++ xs)
find_cong_left c d xs path h =
    find-append path c xs
    ∙ ap (λ (o : Option CachedFile). or_else o (find_text path xs)) h
    ∙ sym (find-append path d xs)

pub find-insert :
    (key : Bytes) (entry : CachedFile) (c : Cache) (path : Bytes)
    → find_text path (insert key entry c) ≡ find_text path (c ++ ((key, entry) ∷ []))
unfolding insert
find-insert key entry [] path = refl
find-insert key entry (first ∷ c) path = elim (Bool-cases (same_text key first.0)) [
  | inr other ↦
      rw (insert, other)
        (ap (λ (o : Option CachedFile). if same_text path first.0 then some first.1 else o)
          (find-insert key entry c path))
  | inl same ↦
      let is_key : key ≡ first.0 = same_text-eq key first.0 same in
      elim (Bool-cases (same_text path first.0)) [
        | inl found ↦ rw (insert, same, found) refl
        | inr missing ↦
            let not_key : same_text path key ≡ false = ap (same_text path) is_key ∙ missing in
            rw (insert, same, missing)
              (sym (
                find-append path c ((key, entry) ∷ [])
                ∙ ap (or_else (find_text path c)) (if_key path key entry not_key)
                ∙ or_else-none (find_text path c)))
      ]
]

pub get_cong :
    (c d : Cache) (path : Bytes) → find_text path c ≡ find_text path d → get c path ≡ get d path
unfolding get
get_cong c d path h = rw (get, h) refl
