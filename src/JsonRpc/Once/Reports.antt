-- ===== src/JsonRpc/Once/Reports.antt =====
-- What `readObject` does with a functor: it moves its reader, calls the functor with one member's name
-- after the other, and goes on as the functor says.
use bomba.Base.{
  ℕ, suc, ◌+◌, ◌≤◌, Bool, true, false, List, [], ◌∷◌, Bytes, if◌then◌else◌, Bool-cases, inl, inr,
  ◌≡◌, refl, arith,
}
use mathlib.Core.Path.{subst}
use bomba.Base.Outcome.{M, Outcome, Exception, ok, raise, undefined, diverges, After, After-weaken}
use bomba.Base.Text.{codes, same_text}
use bomba.JsonRpc.{Run}

-- A run of `readObject` with the functor `f`: the names that it reports, the state that it begins with,
-- and its outcome. Between two members only the reader changes.
pub data Reports {I O W Node : Type 0} (f : Bytes → M (Run I O W Node) Bool)
    : List Bytes → Run I O W Node → Outcome (Run I O W Node) (Unit {0}) → Type 0 where
  ended : (s : Run I O W Node) (i : I) → Reports f [] s (ok tt (record s { input = i }))
  failed :
      (s : Run I O W Node) (e : Exception) (i : I)
      → Reports f [] s (raise e (record s { input = i }))
  lost : (s : Run I O W Node) → Reports f [] s undefined
  endless : (s : Run I O W Node) → Reports f [] s diverges
  went_on :
      {name : Bytes} {names : List Bytes} {s t : Run I O W Node}
      {o : Outcome (Run I O W Node) (Unit {0})}
      → (i : I) → f name (record s { input = i }) ≡ ok true t
      → Reports f names t o
      → Reports f (name ∷ names) s o
  stopped :
      {name : Bytes} {s t : Run I O W Node} {o : Outcome (Run I O W Node) (Unit {0})}
      → (i : I) → f name (record s { input = i }) ≡ ok false t
      → Reports f [] t o
      → Reports f (name ∷ []) s o
  threw :
      {name : Bytes} {s t : Run I O W Node} {e : Exception}
      → (i : I) → f name (record s { input = i }) ≡ raise e t
      → Reports f (name ∷ []) s (raise e t)
  member_lost :
      {name : Bytes} {s : Run I O W Node}
      → (i : I) → f name (record s { input = i }) ≡ undefined
      → Reports f (name ∷ []) s undefined
  member_endless :
      {name : Bytes} {s : Run I O W Node}
      → (i : I) → f name (record s { input = i }) ≡ diverges
      → Reports f (name ∷ []) s diverges

pub same_text-eq : (a b : Bytes) → same_text a b ≡ true → a ≡ b
same_text-eq [] [] h = refl
same_text-eq [] (d ∷ ds) h = absurd (cc)
same_text-eq (c ∷ cs) [] h = absurd (cc)
same_text-eq (c ∷ cs) (d ∷ ds) h =
    let rest = same_text-eq cs ds (ground (arith, h)) in let same : c ≡ d = ground (arith, h) in cc

-- How many of the names are `params`.
abbrev pub params_in : List Bytes → ℕ
params_in [] = 0
params_in (name ∷ names) =
    if same_text name (codes "params") then suc (params_in names) else params_in names

module _ {I O W Node : Type 0} (f : Bytes → M (Run I O W Node) Bool)
    (P : Bool → Run I O W Node → Type 0) (Q : Run I O W Node → Type 0)
    (weaken : (b : Bool) (t : Run I O W Node) → P b t → Q t)
    (moved : (b : Bool) (t : Run I O W Node) (i : I) → P b t → P b (record t { input = i }))
    (other : (b : Bool) (name : Bytes) (t : Run I O W Node)
      → same_text name (codes "params") ≡ false
      → P b t
      → After (P b) Q (f name t))
    (params : (name : Bytes) (t : Run I O W Node)
      → same_text name (codes "params") ≡ true
      → P false t
      → After (P true) Q (f name t)) where
  -- `b` tells that `params` was there.
  abbrev Budget : List Bytes → Bool → Type 0
  Budget names b = params_in names + (if b then 1 else 0) ≤ 1

  member-After :
      (b : Bool) (name : Bytes) (names : List Bytes) (t : Run I O W Node)
      → P b t
      → Budget (name ∷ names) b
      → After (λ u. (c : Bool) × P c u × Budget names c) Q (f name t)
  member-After b name names t h budget = elim (Bool-cases (same_text name (codes "params"))) [
    | inr no_params ↦
        let left : Budget names b = ground (arith, no_params, budget) in
        After-weaken (P b) (λ u. (c : Bool) × P c u × Budget names c) Q Q (f name t)
          (other b name t no_params h) (λ u k. (b, k, left)) (λ u k. k)
    | inl is_params ↦ elim (Bool-cases b) [
      | inl again ↦ absurd (ground (arith, is_params, again, budget))
      | inr first ↦
          let left : Budget names true = ground (arith, is_params, first, budget) in
          After-weaken (P true) (λ u. (c : Bool) × P c u × Budget names c) Q Q (f name t)
            (params name t is_params (subst (λ (c : Bool). P c t) first h)) (λ u k. (true, k, left))
            (λ u k. k)
    ]
  ]

  -- What the functor keeps holds when `readObject` comes to its end, if `params` is reported once at
  -- most.
  pub Reports-After :
      {names : List Bytes} {s : Run I O W Node} {o : Outcome (Run I O W Node) (Unit {0})} (b : Bool)
      → Reports f names s o
      → P b s
      → Budget names b
      → After (λ t. (c : Bool) × P c t) Q o
  Reports-After b (ended s i) h budget = (b, moved b s i h)
  Reports-After b (failed s e i) h budget = weaken b _ (moved b s i h)
  Reports-After b (lost s) h budget = tt
  Reports-After b (endless s) h budget = tt
  Reports-After b (went_on {name} {names} {s} {t} {o} i e rest) h budget =
      let (c, k, left) =
        subst (After (λ u. (c : Bool) × P c u × Budget names c) Q) e
          (member-After b name names (record s { input = i }) (moved b s i h) budget) in
      Reports-After c rest k left
  Reports-After b (stopped {name} {s} {t} {o} i e rest) h budget =
      let (c, k, left) =
        subst (After (λ u. (c : Bool) × P c u × Budget [] c) Q) e
          (member-After b name [] (record s { input = i }) (moved b s i h) budget) in
      Reports-After c rest k left
  Reports-After b (threw {name} {s} {t} {e} i eq) h budget =
      subst (After (λ u. (c : Bool) × P c u × Budget [] c) Q) eq
        (member-After b name [] (record s { input = i }) (moved b s i h) budget)
  Reports-After b (member_lost i e) h budget = tt
  Reports-After b (member_endless i e) h budget = tt
