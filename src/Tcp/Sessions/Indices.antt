-- ===== src/Tcp/Sessions/Indices.antt =====
-- Each session of the server stands at its own index, so the session that cancels itself is the one
-- that goes.
use bomba.Base.{
  ℕ, zero, suc, ◌+◌, ◌-◌, ◌≤◌, ◌<◌, true, false, List, [], ◌∷◌, ◌++◌, length, length-append,
  length-set, get_elem?, get_elem?-lt, set, take, take-length_append, ltb, Bool-cases, ltb→lt, some,
  inl, inr, ◌≡◌, ◌↔◌, refl, sym, ap, ◌∙◌, arith,
}
use mathlib.Core.Path.{subst}
use mathlib.Core.List.Permᴰ
use mathlib.Core.List.{Permᴰ}
use bomba.Base.Outcome.{Outcome, ok}
use bomba.Tcp.Sessions.{
  Session, back, pop_back, swap, start_session, destroy_session, Step, started, ended, Reaches,
  none_yet, next,
}

module _ {A : Type 0} where
  set-append_front :
      (xs ys : List A) (i : ℕ) (v : A) → i < length xs → set (xs ++ ys) i v ≡ set xs i v ++ ys
  set-append_front [] ys i v h = absurd (omega arith)
  set-append_front (x ∷ xs) ys zero v h = refl
  set-append_front (x ∷ xs) ys (suc i) v h =
      ap (λ l. x ∷ l) (set-append_front xs ys i v (omega arith))

  set-length : (xs : List A) (y v : A) → set (xs ++ (y ∷ [])) (length xs) v ≡ xs ++ (v ∷ [])
  set-length [] y v = refl
  set-length (x ∷ xs) y v = ap (λ l. x ∷ l) (set-length xs y v)

  get_elem?-append_front :
      (xs ys : List A) (i : ℕ) → i < length xs → get_elem? (xs ++ ys) i ≡ get_elem? xs i
  get_elem?-append_front [] ys i h = absurd (omega arith)
  get_elem?-append_front (x ∷ xs) ys zero h = refl
  get_elem?-append_front (x ∷ xs) ys (suc i) h = get_elem?-append_front xs ys i (omega arith)

  get_elem?-length : (xs : List A) (y : A) → get_elem? (xs ++ (y ∷ [])) (length xs) ≡ some y
  get_elem?-length [] y = refl
  get_elem?-length (x ∷ xs) y = get_elem?-length xs y

  back-snoc : (xs : List A) (y : A) → back (xs ++ (y ∷ [])) ≡ some y
  back-snoc [] y = refl
  back-snoc (x ∷ []) y = refl
  back-snoc (x ∷ z ∷ zs) y = back-snoc (z ∷ zs) y

  pop_back-snoc : (xs : List A) (y : A) → pop_back (xs ++ (y ∷ [])) ≡ xs
  pop_back-snoc xs y =
      ap (λ n. take n (xs ++ (y ∷ []))) (omega (arith, length-append xs (y ∷ [])))
      ∙ take-length_append xs (y ∷ [])

  some-lt : (xs : List A) (i : ℕ) (x : A) → get_elem? xs i ≡ some x → i < length xs
  some-lt [] i x e = cc
  some-lt (y ∷ ys) zero x e = omega arith
  some-lt (y ∷ ys) (suc i) x e = omega (arith, some-lt ys i x e)

  -- The elements beside one that is overwritten.
  set-Perm :
      (xs : List A) (i : ℕ) (x v : A) → get_elem? xs i ≡ some x → Permᴰ (x ∷ set xs i v) (v ∷ xs)
  set-Perm [] i x v e = cc
  set-Perm (y ∷ ys) zero x v e =
      Permᴰ.trans (Permᴰ.swap refl refl) (Permᴰ.cons refl (Permᴰ.cons (cc) (Permᴰ.refl ys)))
  set-Perm (y ∷ ys) (suc i) x v e =
      Permᴰ.trans (Permᴰ.swap refl refl)
        (Permᴰ.trans (Permᴰ.cons refl (set-Perm ys i x v e)) (Permᴰ.swap refl refl))

  snoc-Perm : (xs : List A) (y : A) → Permᴰ (xs ++ (y ∷ [])) (y ∷ xs)
  snoc-Perm [] y = Permᴰ.refl (y ∷ [])
  snoc-Perm (x ∷ xs) y = Permᴰ.trans (Permᴰ.cons refl (snoc-Perm xs y)) (Permᴰ.swap refl refl)

  -- A list that has an element has a last one.
  last_split : (xs : List A) → 1 ≤ length xs → (ys : List A) × (y : A) × (xs ≡ ys ++ (y ∷ []))
  last_split [] h = absurd (omega arith)
  last_split (x ∷ []) h = ([], x, refl)
  last_split (x ∷ z ∷ zs) h =
      let (ys, y, e) = last_split (z ∷ zs) (omega arith) in (x ∷ ys, y, ap (λ l. x ∷ l) e)

module _ {C : Type 0} where
  abbrev pub connections : List (Session C) → List C
  connections [] = []
  connections (s ∷ ss) = s.connection ∷ connections ss

  -- The sessions' indices are their positions, which begin with a number.
  abbrev pub AreIndexed : ℕ → List (Session C) → Type 0
  AreIndexed n [] = Unit
  AreIndexed n (s ∷ ss) = (s.index ≡ n) × AreIndexed (suc n) ss

  AreIndexed-snoc :
      (n : ℕ) (ss : List (Session C)) (s : Session C)
      → AreIndexed n (ss ++ (s ∷ [])) ↔ (AreIndexed n ss × (s.index ≡ n + length ss))
  AreIndexed-snoc n [] s = (λ h. (tt, omega (arith, h.0)), λ h. (omega (arith, h.1), tt))
  AreIndexed-snoc n (r ∷ rs) s =
      let ih = AreIndexed-snoc (suc n) rs s in
      (
        λ h. let (a, b) = ih.0 h.1 in ((h.0, a), omega (arith, b)),
        λ h. (h.0.0, ih.1 (h.0.1, omega (arith, h.1))),
      )

  AreIndexed-set :
      (n : ℕ) (ss : List (Session C)) (i : ℕ) (s : Session C)
      → AreIndexed n ss
      → s.index ≡ n + i
      → AreIndexed n (set ss i s)
  AreIndexed-set n [] i s h e = tt
  AreIndexed-set n (r ∷ rs) zero s h e = (omega (arith, e), h.1)
  AreIndexed-set n (r ∷ rs) (suc i) s h e =
      (h.0, AreIndexed-set (suc n) rs i s h.1 (omega (arith, e)))

  AreIndexed-get :
      (n : ℕ) (ss : List (Session C)) (i : ℕ) (s : Session C)
      → AreIndexed n ss
      → get_elem? ss i ≡ some s
      → s.index ≡ n + i
  AreIndexed-get n [] i s h e = cc
  AreIndexed-get n (r ∷ rs) zero s h e =
      let same : r ≡ s = cc in omega (arith, h.0, ap (λ (q : Session C). q.index) same)
  AreIndexed-get n (r ∷ rs) (suc i) s h e = omega (arith, AreIndexed-get (suc n) rs i s h.1 e)

  connections-set :
      (ss : List (Session C)) (i : ℕ) (s : Session C)
      → connections (set ss i s) ≡ set (connections ss) i s.connection
  connections-set [] i s = refl
  connections-set (r ∷ rs) zero s = refl
  connections-set (r ∷ rs) (suc i) s = ap (λ l. r.connection ∷ l) (connections-set rs i s)

  connections-snoc :
      (ss : List (Session C)) (s : Session C)
      → connections (ss ++ (s ∷ [])) ≡ connections ss ++ (s.connection ∷ [])
  connections-snoc [] s = refl
  connections-snoc (r ∷ rs) s = ap (λ l. r.connection ∷ l) (connections-snoc rs s)

  connections-get :
      (ss : List (Session C)) (i : ℕ) (s : Session C)
      → get_elem? ss i ≡ some s
      → get_elem? (connections ss) i ≡ some s.connection
  connections-get [] i s e = cc
  connections-get (r ∷ rs) zero s e =
      let same : r ≡ s = cc in ap (λ (q : Session C). some q.connection) same
  connections-get (r ∷ rs) (suc i) s e = connections-get rs i s e

  moved : ℕ → Session C → Session C
  moved i s = record s { index = i }

  swap-last :
      (ss : List (Session C)) (m r : Session C) (i : ℕ)
      → i < length ss
      → get_elem? ss i ≡ some r
      → swap i (length ss) (ss ++ (m ∷ [])) ≡ set ss i m ++ (r ∷ [])
  unfolding swap
  swap-last ss m r i h at =
      let front : get_elem? (ss ++ (m ∷ [])) i ≡ some r =
        get_elem?-append_front ss (m ∷ []) i h ∙ at in
      let long : length (set ss i m) ≡ length ss = length-set ss i m in
      rw (swap, front, get_elem?-length ss m)
        (ap (λ l. set l (length ss) r) (set-append_front ss (m ∷ []) i m h)
          ∙ ap (λ n. set (set ss i m ++ (m ∷ [])) n r) (sym long)
          ∙ set-length (set ss i m) m r)

  -- The last session takes the place of one in front of it.
  destroy_session-front :
      (ss : List (Session C)) (s : Session C) (i : ℕ)
      → i < length ss
      → destroy_session i (ss ++ (s ∷ [])) ≡ ok tt (set ss i (record s { index = i }))
  unfolding destroy_session
  destroy_session-front ss s i h =
      let (r, at) = get_elem?-lt ss i h in
      let m : Session C = record s { index = i } in
      let last : length (ss ++ (s ∷ [])) - 1 ≡ length ss =
        omega (arith, length-append ss (s ∷ [])) in
      let less : ltb i (length ss) ≡ true = ground (arith, h) in
      rw (destroy_session, back-snoc ss s, last, less, set-length ss s m, swap-last ss m r i h at)
        (ap (λ l. ok tt l) (pop_back-snoc (set ss i m) r))

  destroy_session-last :
      (ss : List (Session C)) (s : Session C)
      → destroy_session (length ss) (ss ++ (s ∷ [])) ≡ ok tt ss
  unfolding destroy_session
  destroy_session-last ss s =
      let last : length (ss ++ (s ∷ [])) - 1 ≡ length ss =
        omega (arith, length-append ss (s ∷ [])) in
      let less : ltb (length ss) (length ss) ≡ false = ground arith in
      rw (destroy_session, back-snoc ss s, last, less)
        (ap (λ l. ok tt l) (take-length_append ss (s ∷ [])))

  -- What is left of the sessions, and what it is made of.
  pub record Destroyed (sessions : List (Session C)) (s : Session C) : Type 0 where
    pub rest : List (Session C)
    pub run : destroy_session s.index sessions ≡ ok tt rest
    pub indexed : AreIndexed 0 rest
    pub others : Permᴰ (connections sessions) (s.connection ∷ connections rest)

  destroy_session-snoc :
      (ss : List (Session C)) (b : Session C) (i : ℕ) (s : Session C)
      → AreIndexed 0 (ss ++ (b ∷ []))
      → get_elem? (ss ++ (b ∷ [])) i ≡ some s
      → Destroyed (ss ++ (b ∷ [])) s
  destroy_session-snoc ss b i s indexed at =
      let own : s.index ≡ i = omega (arith, AreIndexed-get 0 (ss ++ (b ∷ [])) i s indexed at) in
      let inside = some-lt (ss ++ (b ∷ [])) i s at in
      let (before, _) = (AreIndexed-snoc 0 ss b).0 indexed in
      let split =
        subst (λ l. Permᴰ l (b.connection ∷ connections ss)) (sym (connections-snoc ss b))
          (snoc-Perm (connections ss) b.connection) in
      elim (Bool-cases (ltb i (length ss))) [
        | inl front ↦
            let less : i < length ss = ltb→lt i (length ss) front in
            let m : Session C = record b { index = i } in
            let at_front : get_elem? ss i ≡ some s =
              sym (get_elem?-append_front ss (b ∷ []) i less) ∙ at in
            record {
              rest = set ss i m;
              run =
                  ap (λ n. destroy_session n (ss ++ (b ∷ []))) own
                  ∙ destroy_session-front ss b i less;
              indexed = AreIndexed-set 0 ss i m before (omega arith);
              others = Permᴰ.trans split (
                  subst (λ l. Permᴰ (b.connection ∷ connections ss) (s.connection ∷ l))
                    (sym (connections-set ss i m))
                    (Permᴰ.symm (
                      set-Perm (connections ss) i s.connection b.connection
                        (connections-get ss i s at_front))));
            }
        | inr last ↦
            let is_last : i ≡ length ss = ground (arith, last, inside, length-append ss (b ∷ [])) in
            let found : get_elem? (ss ++ (b ∷ [])) i ≡ some b =
              ap (get_elem? (ss ++ (b ∷ []))) is_last ∙ get_elem?-length ss b in
            let is_b : b ≡ s = cc in
            record {
              rest = ss;
              run =
                  ap (λ n. destroy_session n (ss ++ (b ∷ []))) (own ∙ is_last)
                  ∙ destroy_session-last ss b;
              indexed = before;
              others =
                  subst
                    (λ (q : Session C).
                      Permᴰ (connections (ss ++ (b ∷ []))) (q.connection ∷ connections ss))
                    is_b split;
            }
      ]

  -- Where every session stands at its own index, a session of the server that cancels itself with its
  -- index is the one that goes: the call is defined, the connections that are left are the others, in
  -- some order, and they stand at their indices again.
  pub destroy_session-own :
      (sessions : List (Session C)) (i : ℕ) (s : Session C)
      → AreIndexed 0 sessions
      → get_elem? sessions i ≡ some s
      → Destroyed sessions s
  destroy_session-own sessions i s indexed at =
      let (ss, b, e) = last_split sessions (omega (arith, some-lt sessions i s at)) in
      subst (λ l. Destroyed l s) (sym e)
        (destroy_session-snoc ss b i s (subst (AreIndexed 0) e indexed)
          (subst (λ l. get_elem? l i ≡ some s) e at))

  Step-AreIndexed :
      {before after : List (Session C)}
      → Step before after
      → AreIndexed 0 before
      → AreIndexed 0 after
  unfolding start_session
  Step-AreIndexed (started sessions c) h =
      (AreIndexed-snoc 0 sessions (record { connection = c; index = length sessions })).1
        (h, omega arith)
  Step-AreIndexed (ended {sessions} {rest} i s at run) h =
      let d = destroy_session-own sessions i s h at in
      let first : Outcome (List (Session C)) (Unit {0}) = ok tt d.rest in
      let same : first ≡ ok tt rest = sym d.run ∙ run in
      let is_rest : d.rest ≡ rest = cc in subst (AreIndexed 0) is_rest d.indexed

  -- However sessions start and cancel themselves, each stands at its own index.
  pub Reaches-AreIndexed : {sessions : List (Session C)} → Reaches sessions → AreIndexed 0 sessions
  Reaches-AreIndexed none_yet = tt
  Reaches-AreIndexed (next before step) = Step-AreIndexed step (Reaches-AreIndexed before)
