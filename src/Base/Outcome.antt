-- ===== src/Base/Outcome.antt =====
-- What a call of a stateful C++ function comes to, and the monad of such calls.
use bomba.Base.{◌≡◌, refl, ap}

-- The exceptions that the code throws, by the function that throws them, and the standard library's.
pub data Exception : Type 0 where
  parse_error remote_error logic_error method_not_found out_of_range : Exception

-- A call returns, throws, leaves the behaviour that C++ defines, or never comes back. An exception
-- keeps the state that it leaves behind, which a handler goes on with.
pub data Outcome {ℓ κ} (S : Type ℓ) (A : Type κ) : Type (ℓ ⊔ κ) where
  ok : A → S → Outcome S A
  raise : Exception → S → Outcome S A
  undefined : Outcome S A
  diverges : Outcome S A

abbrev pub M {ℓ κ} : Type ℓ → Type κ → Type (ℓ ⊔ κ)
M S A = S → Outcome S A

module _ {ℓ κ} {S : Type ℓ} where
  infixl 5 ◌>>=◌ ◌>>◌
  abbrev pub ◌>>=◌ : {A B : Type κ} → (S → Outcome S A) → (A → S → Outcome S B) → S → Outcome S B
  ◌>>=◌ m f s = elim (m s) [
    | ok a t ↦ f a t
    | raise e t ↦ raise e t
    | undefined ↦ undefined
    | diverges ↦ diverges
  ]

  abbrev pub ◌>>◌ : {A B : Type κ} → (S → Outcome S A) → (S → Outcome S B) → S → Outcome S B
  m >> k = m >>= λ _. k

  abbrev pub return : {A : Type κ} → A → S → Outcome S A
  return a s = ok a s

  abbrev pub throw : {A : Type κ} → Exception → S → Outcome S A
  throw e s = raise e s

  -- A call whose result is known is run in front of what follows.
  pub >>=-ok :
      {A B : Type κ} (m : S → Outcome S A) (f : A → S → Outcome S B) {s t : S} {a : A}
      → m s ≡ ok a t
      → (m >>= f) s ≡ f a t
  >>=-ok m f h = rw (h, ◌>>=◌)

-- A call on a part of the state: what follows is given its result and what it left, and `whole` is the
-- state that an exception leaves.
abbrev pub continue {ℓ κ} :
    {S T : Type ℓ} {A B : Type κ} → Outcome S A → (S → T) → (A → S → Outcome T B) → Outcome T B
continue (ok a s) whole next = next a s
continue (raise e s) whole next = raise e (whole s)
continue undefined whole next = undefined
continue diverges whole next = diverges

-- The laws of the monad, at a state.
module _ {S : Type 0} {A : Type 0} where
  abbrev pub bind : {B : Type 0} → Outcome S A → (A → S → Outcome S B) → Outcome S B
  bind o f = elim o [
    | ok a t ↦ f a t
    | raise e t ↦ raise e t
    | undefined ↦ undefined
    | diverges ↦ diverges
  ]

  bind_assoc :
      {B C : Type 0} (o : Outcome S A) (f : A → S → Outcome S B) (g : B → S → Outcome S C)
      → (elim (bind o f) [
        | ok a t ↦ g a t
        | raise e t ↦ raise e t
        | undefined ↦ undefined
        | diverges ↦ diverges
      ])
        ≡ bind o (λ a s. elim (f a s) [
          | ok b t ↦ g b t
          | raise e t ↦ raise e t
          | undefined ↦ undefined
          | diverges ↦ diverges
        ])
  bind_assoc (ok a s) f g = refl
  bind_assoc (raise e s) f g = refl
  bind_assoc undefined f g = refl
  bind_assoc diverges f g = refl

  bind_cong :
      {B : Type 0} (o : Outcome S A) (f g : A → S → Outcome S B)
      → ((a : A) (s : S) → f a s ≡ g a s)
      → bind o f ≡ bind o g
  bind_cong (ok a s) f g h = h a s
  bind_cong (raise e s) f g h = refl
  bind_cong undefined f g h = refl
  bind_cong diverges f g h = refl

  pub >>=_assoc :
      {B C : Type 0} (m : S → Outcome S A) (f : A → S → Outcome S B) (g : B → S → Outcome S C)
      (s : S)
      → ((m >>= f) >>= g) s ≡ (m >>= λ a. f a >>= g) s
  >>=_assoc m f g s = bind_assoc (m s) f g

  pub >>=_cong :
      {B : Type 0} (m : S → Outcome S A) (f g : A → S → Outcome S B) (s : S)
      → ((a : A) (t : S) → f a t ≡ g a t)
      → (m >>= f) s ≡ (m >>= g) s
  >>=_cong m f g s h = bind_cong (m s) f g h

  pub >>=_cong_left :
      {B : Type 0} (m k : S → Outcome S A) (f : A → S → Outcome S B) (s : S)
      → m s ≡ k s
      → (m >>= f) s ≡ (k >>= f) s
  >>=_cong_left m k f s h = ap (λ (o : Outcome S A). bind o f) h

bind_return : {S : Type 0} (o : Outcome S (Unit {0})) → bind o (λ a s. ok tt s) ≡ o
bind_return (ok tt s) = refl
bind_return (raise e s) = refl
bind_return undefined = refl
bind_return diverges = refl

pub >>-return : {S : Type 0} (m : S → Outcome S (Unit {0})) (s : S) → (m >> return tt) s ≡ m s
>>-return m s = bind_return (m s)

-- What holds of the state that a call leaves, whether it returns or throws.
abbrev pub After : {S A : Type 0} → (S → Type 0) → (S → Type 0) → Outcome S A → Type 0
After P Q (ok a s) = P s
After P Q (raise e s) = Q s
After P Q undefined = Unit
After P Q diverges = Unit

module _ {S : Type 0} {A : Type 0} where
  After-bind :
      {B : Type 0} (P R Q : S → Type 0) (o : Outcome S A) (f : A → S → Outcome S B)
      → After P Q o
      → ((a : A) (s : S) → P s → After R Q (f a s))
      → After R Q (bind o f)
  After-bind P R Q (ok a s) f h k = k a s h
  After-bind P R Q (raise e s) f h k = h
  After-bind P R Q undefined f h k = tt
  After-bind P R Q diverges f h k = tt

  -- A call and what follows it.
  pub >>=-After :
      {B : Type 0} (P R Q : S → Type 0) (m : S → Outcome S A) (f : A → S → Outcome S B) (s : S)
      → After P Q (m s)
      → ((a : A) (t : S) → P t → After R Q (f a t))
      → After R Q ((m >>= f) s)
  >>=-After P R Q m f s h k = After-bind P R Q (m s) f h k

  pub continue-After :
      {T B : Type 0} (R Q : T → Type 0) (o : Outcome S A) (whole : S → T) (f : A → S → Outcome T B)
      → ((s : S) → Q (whole s))
      → ((a : A) (s : S) → After R Q (f a s))
      → After R Q (continue o whole f)
  continue-After R Q (ok a s) whole f h k = k a s
  continue-After R Q (raise e s) whole f h k = h s
  continue-After R Q undefined whole f h k = tt
  continue-After R Q diverges whole f h k = tt

pub After-weaken :
    {S A : Type 0} (P R Q : S → Type 0) (T : S → Type 0) (o : Outcome S A)
    → After P Q o
    → ((s : S) → P s → R s)
    → ((s : S) → Q s → T s)
    → After R T o
After-weaken P R Q T (ok a s) h f g = f s h
After-weaken P R Q T (raise e s) h f g = g s h
After-weaken P R Q T undefined h f g = tt
After-weaken P R Q T diverges h f g = tt
