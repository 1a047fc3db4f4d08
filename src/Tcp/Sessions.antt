-- ===== src/Tcp/Sessions.antt =====
-- The sessions of TcpServer in bomba_tcp_server.hpp. Each knows its index, with which it asks the
-- server to destroy it.
pub mod Indices
use bomba.Base.{
  ℕ, zero, suc, ◌-◌, Bool, true, false, List, [], ◌∷◌, ◌++◌, length, get_elem?, set, take, ltb,
  if◌then◌else◌, Option, none, some, ◌≡◌,
}
use bomba.Base.Outcome.{M, Outcome, ok, undefined}

-- A session, what it is beside its index left open.
pub record Session (C : Type 0) : Type 0 where
  pub connection : C
  pub index : ℕ

module _ {A : Type 0} where
  -- `back` and `pop_back` of a vector.
  abbrev pub back : List A → Option A
  back [] = none
  back (x ∷ []) = some x
  back (x ∷ y ∷ ys) = back (y ∷ ys)

  abbrev pub pop_back : List A → List A
  pop_back xs = take (length xs - 1) xs

  -- `std::swap` of two elements of a vector, where both exist.
  unfoldable pub swap : ℕ → ℕ → List A → List A
  swap i j xs = elim (get_elem? xs i) [
    | none ↦ xs
    | some a ↦ elim (get_elem? xs j) [ none ↦ xs | some b ↦ set (set xs i b) j a ]
  ]

-- What `startSession` does with a socket that was accepted.
unfoldable pub start_session : {C : Type 0} → C → List (Session C) → List (Session C)
start_session c sessions = sessions ++ (record { connection = c; index = length sessions } ∷ [])

-- An index that is not in front of the last stands for the last, whatever it is.
unfoldable pub destroy_session : {C : Type 0} → ℕ → M (List (Session C)) (Unit {0})
unfolding swap
destroy_session index sessions =
    let last = length sessions - 1 in
    elim (back sessions) [
      | none ↦ undefined
      | some session ↦
          if ltb index last
          then ok tt
              (pop_back (swap index last (set sessions last (record session { index = index }))))
          else ok tt (pop_back sessions)
    ]

-- What can happen to the sessions: a socket is accepted, or a session of the server cancels itself.
pub data Step {C : Type 0} : List (Session C) → List (Session C) → Type 0 where
  started : (sessions : List (Session C)) (c : C) → Step sessions (start_session c sessions)
  ended :
      {sessions rest : List (Session C)} (i : ℕ) (s : Session C)
      → get_elem? sessions i ≡ some s
      → destroy_session s.index sessions ≡ ok tt rest
      → Step sessions rest

pub data Reaches {C : Type 0} : List (Session C) → Type 0 where
  none_yet : Reaches []
  next : {before after : List (Session C)} → Reaches before → Step before after → Reaches after
