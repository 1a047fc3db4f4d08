-- ===== src/JsonRpc/Once/Members.antt =====
-- The members of a request, each from one state between two members to another.
use bomba.Base.{
  ℕ, Bool, true, false, ◌&&◌, Bytes, none, some, Option-cases, Bool-cases, inl, inr, ◌≡◌, refl, sym,
  ◌∙◌, arith,
}
use bomba.Base.Outcome.{M, ok, ◌>>◌, return, After, >>=-After}
use bomba.Base.Text.{codes}
use bomba.Core.Flags.{no_flags}
use bomba.Core.Path.{find_callable}
use bomba.JsonRpc.{
  method_unknown, Environment, on_input, write_id, call, go_on, skip, call_if_ready, on_id,
  set_method, call_if_responding, on_method, call_or_skip, on_params, is_some,
}
use bomba.JsonRpc.Once.{
  State, IsCounted, AtMostOnce, Between, on_input-Between, Keeps, write_id-Keeps,
  introduce_error-Keeps,
}
use bomba.JsonRpc.Once.Calling.{BetweenAny, any, call-any, call_and_return-any}

module _ {I O W Node : Type 0} (env : Environment I O W Node) (count : W → ℕ) (start : ℕ) where
  call_if_ready-any :
      (IsCounted env count start)
      → (b : Bool) (s : (State env count start)) → (Between env count start) b false s
      → After ((BetweenAny env count start) b) (AtMostOnce env count start) (call_if_ready env s)
  unfolding call_if_ready
  call_if_ready-any counts b s h =
      elim (Bool-cases (is_some s.method && is_some s.params_position)) [
        | inl ready ↦
            rw (call_if_ready, ready)
              ((call_and_return-any env count start) counts b s h
                (sym h.known ∙ ground (arith, ready)))
        | inr wait ↦ rw (call_if_ready, wait) (false, h)
      ]

  -- The last step of a member.
  pub then_go_on :
      (b : Bool) (m : M (State env count start) (Unit {0})) (s : (State env count start))
      → After ((BetweenAny env count start) b) (AtMostOnce env count start) (m s)
      → After ((BetweenAny env count start) b) (AtMostOnce env count start) ((m >> go_on env) s)
  then_go_on b m s h =
      >>=-After ((BetweenAny env count start) b) ((BetweenAny env count start) b)
        (AtMostOnce env count start) m (λ _. go_on env) s h (λ _ t k. k)

  skip-any :
      (b c : Bool) (s : (State env count start))
      → (Between env count start) b c s
      → After ((BetweenAny env count start) b) (AtMostOnce env count start) (skip env s)
  unfolding skip
  skip-any b c s h =
      (any env count start) b c (on_input env (env.inp.skip_object_element no_flags) s)
        ((on_input-Between env count start) b c (env.inp.skip_object_element no_flags) s h)

  pub on_id-any :
      (IsCounted env count start)
      → (on_response_started : M O (Unit {0})) (b c : Bool) (s : (State env count start))
      → (Between env count start) b c s
      → After
          ((BetweenAny env count start) b)
          (AtMostOnce env count start)
          (on_id env on_response_started s)
  unfolding on_id
  on_id-any counts on_response_started b true s h =
      rw (on_id, h.fresh) (then_go_on b (skip env) s (skip-any b true s h))
  on_id-any counts on_response_started b false s h =
      rw (on_id, h.fresh)
        (>>=-After ((Between env count start) b false) ((BetweenAny env count start) b)
          (AtMostOnce env count start) (write_id env on_response_started)
          (λ _. call_if_ready env >> go_on env) s
          ((write_id-Keeps env count start) b false on_response_started s h)
          (λ _ t k. then_go_on b (call_if_ready env) t (call_if_ready-any counts b t k)))

  set_method-Keeps :
      (root : Node) (path : Bytes) (b : Bool)
      → (Keeps env count start) b false (set_method env root path)
  unfolding set_method
  set_method-Keeps root path b s h =
      elim (Option-cases (find_callable env.get_child b'.' path root)) [
        | inl missing ↦
            rw (set_method, missing)
              ((introduce_error-Keeps env count start) b false (codes "Method not known")
                method_unknown s h)
        | inr found ↦
            rw (set_method, found.1)
              (record {
                fresh = h.fresh;
                known = h.known;
                counted = h.counted;
                only_with = λ e. absurd (cc);
              })
      ]

  call_if_responding-any :
      (IsCounted env count start)
      → (b : Bool) (s : (State env count start)) → (Between env count start) b false s
      → After
          ((BetweenAny env count start) b)
          (AtMostOnce env count start)
          (call_if_responding env s)
  unfolding call_if_responding
  call_if_responding-any counts b s h =
      elim (Bool-cases (s.responding && is_some s.params_position)) [
        | inr wait ↦ rw (call_if_responding, wait) (false, h)
        | inl ready ↦
            rw (call_if_responding, ready)
              ((call_and_return-any env count start) counts b s h
                (sym h.known ∙ ground (arith, ready)))
      ]

  not_called :
      (b c : Bool) (s : (State env count start))
      → (Between env count start) b c s
      → s.method ≡ none
      → (Between env count start) b false s
  not_called b false s h missing = h
  not_called b true s h missing = absurd (ground (arith, missing, (h.only_with refl).1))

  pub on_method-any :
      (IsCounted env count start)
      → (root : Node) (b c : Bool) (s : (State env count start)) → (Between env count start) b c s
      → After ((BetweenAny env count start) b) (AtMostOnce env count start) (on_method env root s)
  unfolding on_method
  on_method-any counts root b c s h = elim (Option-cases s.method) [
    | inr there ↦ rw (on_method, there.1) (then_go_on b (skip env) s (skip-any b c s h))
    | inl missing ↦
        let fresh : (Between env count start) b false s = not_called b c s h missing in
        rw (on_method, missing)
          (>>=-After ((Between env count start) b false) ((BetweenAny env count start) b)
            (AtMostOnce env count start) (on_input env (env.inp.read_string no_flags))
            (λ path. set_method env root path >> (call_if_responding env >> go_on env)) s
            ((on_input-Between env count start) b false (env.inp.read_string no_flags) s fresh)
            (λ path t k.
              >>=-After ((Between env count start) b false) ((BetweenAny env count start) b)
                (AtMostOnce env count start) (set_method env root path)
                (λ _. call_if_responding env >> go_on env) t (set_method-Keeps root path b t k)
                (λ _ u l.
                  then_go_on b (call_if_responding env) u (call_if_responding-any counts b u l))))
  ]

  call_or_skip-any :
      (IsCounted env count start)
      → (s : (State env count start)) → (Between env count start) true false s
      → After ((BetweenAny env count start) true) (AtMostOnce env count start) (call_or_skip env s)
  unfolding call_or_skip
  call_or_skip-any counts s h = elim (Bool-cases (is_some s.method && s.responding)) [
    | inl ready ↦
        rw (call_or_skip, ready)
          (>>=-After ((BetweenAny env count start) true) ((BetweenAny env count start) true)
            (AtMostOnce env count start) (call env) (λ _. return tt) s
            ((call-any env count start) counts true s h refl) (λ _ t k. k))
    | inr wait ↦ rw (call_or_skip, wait) (skip-any true false s h)
  ]

  -- The first time that the arguments are found.
  pub on_params-any :
      (IsCounted env count start)
      → (c : Bool) (s : (State env count start)) → (Between env count start) false c s
      → After ((BetweenAny env count start) true) (AtMostOnce env count start) (on_params env s)
  unfolding on_params
  on_params-any counts true s h = absurd (cc ((h.only_with refl).0))
  on_params-any counts false s h =
      let place : ℕ → M (State env count start) (Unit {0}) =
        λ location t. ok tt (record t { params_position = some location }) in
      >>=-After ((Between env count start) false false) ((BetweenAny env count start) true)
        (AtMostOnce env count start) (on_input env env.store_position)
        (λ location. place location >> (call_or_skip env >> go_on env)) s
        ((on_input-Between env count start) false false env.store_position s h)
        (λ location t k.
          then_go_on true (call_or_skip env) (record t { params_position = some location })
            (call_or_skip-any counts (record t { params_position = some location })
              (record {
                fresh = k.fresh;
                known = refl;
                counted = k.counted;
                only_with = λ e. absurd (cc);
              })))
