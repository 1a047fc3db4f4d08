-- ===== src/JsonRpc/Once/Whole.antt =====
-- The whole of `respondInternal`, by its members.
use bomba.Base.{
  ℕ, Bool, true, false, not, ◌&&◌, ◌≤◌, List, Bytes, if_true, if_false, Option-cases, Bool-cases,
  inl, inr, ◌≡◌, refl, sym, arith,
}
use mathlib.Core.Path.{subst}
use bomba.Base.Outcome.{
  M, Outcome, ok, raise, undefined, diverges, ◌>>◌, return, After, After-weaken, >>=-After,
  continue-After,
}
use bomba.Base.Text.{codes}
use bomba.Core.Flags.{no_flags}
use bomba.JsonRpc.{
  JsonRpcError, method_unknown, error_of, Environment, on_output, on_input, write_error,
  introduce_error, perform, call, call_and_return, go_on, on_member, check_method, after_members,
  close, new_run, respond_internal, is_some,
}
use bomba.JsonRpc.Once.{
  State, IsCounted, AtMostOnce, Between, Between-AtMostOnce, on_input-Between, Keeps,
  introduce_error-Keeps,
}
use bomba.JsonRpc.Once.Calling.{Done, perform-Done, Between-Before, BetweenAny}
use bomba.JsonRpc.Once.Reports.{Reports, Reports-After, params_in}
use bomba.JsonRpc.Once.Steps.{was_not_called, on_member-any, on_member-params}

module _ {I O W Node : Type 0} (env : Environment I O W Node) (count : W → ℕ) (start : ℕ) where
  module _ (counts : IsCounted env count start) (root : Node)
      (on_response_started : M O (Unit {0})) where
    perform-AtMostOnce :
        (b : Bool) (s : State env count start)
        → Between env count start b false s
        → After (AtMostOnce env count start) (AtMostOnce env count start) (perform env s)
    unfolding perform
    perform-AtMostOnce b s h = elim (Option-cases s.method) [
      | inl missing ↦ rw (perform, missing) (Between-AtMostOnce env count start b false s h)
      | inr there ↦
          After-weaken (Done env count start b) (AtMostOnce env count start)
            (AtMostOnce env count start) (AtMostOnce env count start) (perform env s)
            (perform-Done env count start counts b s
              (Between-Before env count start b s h (ground (arith, there.1))))
            (λ t k. omega (arith, k.counted)) (λ t k. k)
    ]

    call_and_return-AtMostOnce :
        (b : Bool) (s : State env count start)
        → Between env count start b false s
        → After (AtMostOnce env count start) (AtMostOnce env count start) (call_and_return env s)
    unfolding call_and_return call
    call_and_return-AtMostOnce b s h =
        >>=-After (AtMostOnce env count start) (AtMostOnce env count start)
          (AtMostOnce env count start) (call env)
          (λ former. on_input env (env.restore_position former)) s
          (>>=-After (Between env count start b false) (AtMostOnce env count start)
            (AtMostOnce env count start) (on_input env env.store_position)
            (λ former. perform env >> return former) s
            (on_input-Between env count start b false env.store_position s h)
            (λ former t k.
              >>=-After (AtMostOnce env count start) (AtMostOnce env count start)
                (AtMostOnce env count start) (perform env) (λ _. return former) t
                (perform-AtMostOnce b t k) (λ _ u l. l)))
          (λ former t k.
            continue-After (AtMostOnce env count start) (AtMostOnce env count start)
              (env.restore_position former t.input) (λ i. record t { input = i })
              (λ a i. ok a (record t { input = i })) (λ i. k) (λ a i. k))

    check_method-Keeps : (b c : Bool) → Keeps env count start b c (check_method env)
    unfolding check_method
    check_method-Keeps b c s h = elim (Bool-cases (is_some s.method)) [
      | inl known ↦ rw (check_method, known) h
      | inr unknown ↦
          rw (check_method, unknown)
            (introduce_error-Keeps env count start b c (codes "Method name not found in request")
              method_unknown s h)
    ]

    after_members-AtMostOnce :
        (b c : Bool) (s : State env count start)
        → Between env count start b c s
        → After (AtMostOnce env count start) (AtMostOnce env count start) (after_members env s)
    unfolding after_members
    after_members-AtMostOnce b c s h = elim (Bool-cases (not s.failed && not s.called)) [
      | inr over ↦ rw (after_members, over) (Between-AtMostOnce env count start b c s h)
      | inl still ↦
          let fresh : Between env count start b false s =
            was_not_called env count start b c s h (ground (arith, still)) in
          rw (after_members, still)
            (>>=-After (Between env count start b false) (AtMostOnce env count start)
              (AtMostOnce env count start) (check_method env) (λ _. call_and_return env) s
              (check_method-Keeps b false s fresh) (λ _ t k. call_and_return-AtMostOnce b t k))
    ]

    close-AtMostOnce :
        (s : State env count start)
        → AtMostOnce env count start s
        → After (AtMostOnce env count start) (AtMostOnce env count start) (close env s)
    unfolding close
    close-AtMostOnce s h = elim (Bool-cases s.responding) [
      | inr silent ↦
          subst (After (AtMostOnce env count start) (AtMostOnce env count start))
            (sym (if_false _ _ _ silent)) h
      | inl responding ↦
          subst (After (AtMostOnce env count start) (AtMostOnce env count start))
            (sym (if_true _ _ _ responding))
            (>>=-After (AtMostOnce env count start) (AtMostOnce env count start)
              (AtMostOnce env count start) (on_output env (env.out.end_writing_object no_flags))
              (λ _. go_on env) s
              (continue-After (AtMostOnce env count start) (AtMostOnce env count start)
                (env.out.end_writing_object no_flags s.output) (λ o. record s { output = o })
                (λ a o. ok a (record s { output = o })) (λ o. h) (λ a o. h))
              (λ _ t k. k))
    ]

    introduce_error-AtMostOnce :
        (message : Bytes) (e : JsonRpcError) (s : State env count start)
        → AtMostOnce env count start s
        → After
            (AtMostOnce env count start)
            (AtMostOnce env count start)
            (introduce_error env message e s)
    unfolding introduce_error
    introduce_error-AtMostOnce message e s h = elim (Bool-cases (not s.responding)) [
      | inl quiet ↦ rw (introduce_error, quiet) h
      | inr loud ↦
          rw (introduce_error, loud)
            (continue-After (AtMostOnce env count start) (AtMostOnce env count start)
              (write_error env message e s.output) (λ o. record s { failed = true; output = o })
              (λ a o. ok a (record s { failed = true; output = o })) (λ o. h) (λ a o. h))
    ]

    handled :
        (o : Outcome (State env count start) (Unit {0}))
        → After (AtMostOnce env count start) (AtMostOnce env count start) o
        → After (AtMostOnce env count start) (AtMostOnce env count start) (elim o [
          | ok _ t ↦ close env t
          | raise e t ↦ (do introduce_error env (env.what e) (error_of e); close env) t
          | undefined ↦ undefined
          | diverges ↦ diverges
        ])
    handled (ok _ t) h = close-AtMostOnce t h
    handled (raise e t) h =
        >>=-After (AtMostOnce env count start) (AtMostOnce env count start)
          (AtMostOnce env count start) (introduce_error env (env.what e) (error_of e))
          (λ _. close env) t (introduce_error-AtMostOnce (env.what e) (error_of e) t h)
          (λ _ u k. close-AtMostOnce u k)
    handled undefined h = tt
    handled diverges h = tt

    moved :
        (b : Bool) (s : State env count start) (i : I)
        → BetweenAny env count start b s
        → BetweenAny env count start b (record s { input = i })
    moved b s i (c, h) = (
      c,
      record { fresh = h.fresh; known = h.known; counted = h.counted; only_with = h.only_with },
    )

    -- If the run of the reader on this input reports at most one member `params` (it moves the reader and
    -- calls the functor with one member after the other, as long as this says so, and comes to an end or
    -- throws), and each call of a method adds one to a count and changes the variables of
    -- `respondInternal` through its functors only, then `respondInternal` calls at most one method:
    -- however the members are ordered or repeated, and wherever it throws, the count is at most one more
    -- when it comes to its end.
    pub respond_internal-AtMostOnce :
        (i : I) (o : O) (w : W) (names : List Bytes)
        → Reports
            (on_member env root on_response_started)
            names
            (new_run env i o w)
            (env.read_object (on_member env root on_response_started) (new_run env i o w))
        → params_in names ≤ 1
        → count w ≡ start
        → After
            (AtMostOnce env count start)
            (AtMostOnce env count start)
            (respond_internal env root on_response_started (new_run env i o w))
    unfolding respond_internal new_run
    respond_internal-AtMostOnce i o w names reads once begins =
        let run : State env count start = new_run env i o w in
        handled
          ((env.read_object (on_member env root on_response_started) >> after_members env) run)
          (>>=-After (λ t. (b : Bool) × BetweenAny env count start b t) (AtMostOnce env count start)
            (AtMostOnce env count start) (env.read_object (on_member env root on_response_started))
            (λ _. after_members env) run
            (Reports-After (on_member env root on_response_started) (BetweenAny env count start)
              (AtMostOnce env count start) (λ b t k. Between-AtMostOnce env count start b k.0 t k.1)
              moved
              (λ b name t other k.
                on_member-any env count start counts root on_response_started name b k.0 t other
                  k.1)
              (λ name t is_params k.
                on_member-params env count start counts root on_response_started name k.0 t
                  is_params k.1)
              false reads
              (
                false,
                record {
                  fresh = refl;
                  known = refl;
                  counted = begins;
                  only_with = λ e. absurd (cc);
                },
              )
              (omega (arith, once)))
            (λ _ t k. after_members-AtMostOnce k.0 k.1.0 t k.1.1))
