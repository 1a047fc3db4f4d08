-- ===== src/JsonRpc/Once/Calling.antt =====
-- A call of the method, made where it was not called before.
use bomba.Base.{ℕ, suc, ◌≤◌, Bool, true, false, not, Option-cases, inl, inr, ◌≡◌, refl, ◌∙◌, arith}
use bomba.Base.Outcome.{Outcome, ok, ◌>>◌, return, After, After-weaken, >>=-After, continue-After}
use bomba.JsonRpc.{
  Environment, on_input, invoke, go_to_params, perform, call, call_and_return, is_some,
}
use bomba.JsonRpc.Once.{State, IsCounted, AtMostOnce, Between, on_input-Between}

module _ {I O W Node : Type 0} (env : Environment I O W Node) (count : W → ℕ) (start : ℕ) where
  -- It was called now; `params` as before.
  record Now (params : Bool) (s : (State env count start)) : Type 0 where
    pub known : is_some s.params_position ≡ params
    pub counted : count s.world ≡ start
    pub is_called : s.called ≡ true
    pub has_method : is_some s.method ≡ true

  go_to_params-Now :
      (b : Bool) (s : (State env count start))
      → Now b s
      → After (Now b) (AtMostOnce env count start) (go_to_params env s)
  unfolding go_to_params
  go_to_params-Now b s h = elim (Option-cases s.params_position) [
    | inl missing ↦ rw (go_to_params, missing) h
    | inr there ↦
        rw (go_to_params, there.1)
          (continue-After (Now b) (AtMostOnce env count start)
            (env.restore_position there.0 s.input) (λ i. record s { input = i })
            (λ a i. ok a (record s { input = i })) (λ i. omega (arith, h.counted))
            (λ a i. record {
              known = h.known;
              counted = h.counted;
              is_called = h.is_called;
              has_method = h.has_method;
            }))
  ]

  -- It has been called.
  pub record Done (params : Bool) (s : (State env count start)) : Type 0 where
    pub known : is_some s.params_position ≡ params
    pub counted : count s.world ≡ suc start
    pub is_called : s.called ≡ true
    pub has_method : is_some s.method ≡ true

  invoke-Done :
      (IsCounted env count start)
      → (b : Bool) (node : Node) (s : (State env count start)) → Now b s
      → After (Done b) (AtMostOnce env count start) (invoke env node s)
  unfolding invoke
  invoke-Done counts b node s h =
      After-weaken
        (λ t.
          (count t.world ≡ suc (count s.world))
          × (t.called ≡ s.called)
          × (is_some t.params_position ≡ is_some s.params_position)
          × (is_some t.method ≡ is_some s.method))
        (Done b) (λ t. count t.world ≤ suc (count s.world)) (AtMostOnce env count start)
        (invoke env node s) (counts node (is_some s.params_position) (not s.responding) _ s)
        (λ t k.
          let (more, called, known, method) = k in
          record {
            known = known ∙ h.known;
            counted = omega (arith, more, h.counted);
            is_called = called ∙ h.is_called;
            has_method = method ∙ h.has_method;
          })
        (λ t k. omega (arith, k, h.counted))

  -- The method is known and was not called.
  pub record Before (params : Bool) (s : (State env count start)) : Type 0 where
    pub known : is_some s.params_position ≡ params
    pub counted : count s.world ≡ start
    pub has_method : is_some s.method ≡ true

  pub perform-Done :
      (IsCounted env count start)
      → (b : Bool) (s : (State env count start)) → Before b s
      → After (Done b) (AtMostOnce env count start) (perform env s)
  unfolding perform
  perform-Done counts b s h = elim (Option-cases s.method) [
    | inl missing ↦ absurd (ground (arith, h.has_method, missing))
    | inr there ↦
        let node = there.0 in
        let called : (State env count start) = record s { called = true } in
        rw (perform, there.1)
          (>>=-After (Now b) (Done b) (AtMostOnce env count start) (go_to_params env)
            (λ _. invoke env node) called
            (go_to_params-Now b called (record {
              known = h.known;
              counted = h.counted;
              is_called = refl;
              has_method = h.has_method;
            }))
            (λ _ t now. invoke-Done counts b node t now))
  ]

  Done-Between : (s : (State env count start)) → Done true s → (Between env count start) true true s
  Done-Between s h = record {
    fresh = h.is_called;
    known = h.known;
    counted = h.counted;
    only_with = λ _. (refl, h.has_method);
  }

  -- Between two members, a method that is known and was not called.
  pub Between-Before :
      (b : Bool) (s : (State env count start))
      → (Between env count start) b false s
      → is_some s.method ≡ true
      → Before b s
  Between-Before b s h method = record { known = h.known; counted = h.counted; has_method = method }

  -- Between two members, or there the place of the arguments is known and the method was called.
  abbrev pub BetweenAny : Bool → (State env count start) → Type 0
  BetweenAny b s = (c : Bool) × (Between env count start) b c s

  pub any :
      {A : Type 0} (b c : Bool) (o : Outcome (State env count start) A)
      → After ((Between env count start) b c) (AtMostOnce env count start) o
      → After (BetweenAny b) (AtMostOnce env count start) o
  any b c o h =
      After-weaken ((Between env count start) b c) (BetweenAny b) (AtMostOnce env count start)
        (AtMostOnce env count start) o h (λ s k. (c, k)) (λ s k. k)

  called-any :
      (b : Bool) (o : Outcome (State env count start) (Unit {0}))
      → b ≡ true
      → After (Done b) (AtMostOnce env count start) o
      → After (BetweenAny b) (AtMostOnce env count start) o
  called-any true o e h =
      After-weaken (Done true) (BetweenAny true) (AtMostOnce env count start)
        (AtMostOnce env count start) o h (λ s k. (true, Done-Between s k)) (λ s k. k)
  called-any false o e h = absurd (cc)

  perform-any :
      (IsCounted env count start)
      → (b : Bool) (s : (State env count start)) → (Between env count start) b false s
      → b ≡ true
      → After (BetweenAny b) (AtMostOnce env count start) (perform env s)
  unfolding perform
  perform-any counts b s h known = elim (Option-cases s.method) [
    | inl missing ↦ rw (perform, missing) (false, h)
    | inr there ↦
        called-any b (perform env s) known
          (perform-Done counts b s (Between-Before b s h (ground (arith, there.1))))
  ]

  pub call-any :
      (IsCounted env count start)
      → (b : Bool) (s : (State env count start)) → (Between env count start) b false s
      → b ≡ true
      → After (BetweenAny b) (AtMostOnce env count start) (call env s)
  unfolding call
  call-any counts b s h known =
      >>=-After ((Between env count start) b false) (BetweenAny b) (AtMostOnce env count start)
        (on_input env env.store_position) (λ former. perform env >> return former) s
        ((on_input-Between env count start) b false env.store_position s h)
        (λ former t k.
          >>=-After (BetweenAny b) (BetweenAny b) (AtMostOnce env count start) (perform env)
            (λ _. return former) t (perform-any counts b t k known) (λ _ u l. l))

  pub call_and_return-any :
      (IsCounted env count start)
      → (b : Bool) (s : (State env count start)) → (Between env count start) b false s
      → b ≡ true
      → After (BetweenAny b) (AtMostOnce env count start) (call_and_return env s)
  unfolding call_and_return call
  call_and_return-any counts b s h known =
      >>=-After (BetweenAny b) (BetweenAny b) (AtMostOnce env count start) (call env)
        (λ former. on_input env (env.restore_position former)) s (call-any counts b s h known)
        (λ former t k.
          any b k.0 (on_input env (env.restore_position former) t)
            ((on_input-Between env count start) b k.0 (env.restore_position former) t k.1))
