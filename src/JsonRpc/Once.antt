-- ===== src/JsonRpc/Once.antt =====
-- However the members of a request are ordered, its method is called at most once.
pub mod Calling
pub mod Members
pub mod JsonReader
pub mod Reports
pub mod Steps
pub mod Whole
use bomba.Base.{
  ℕ, zero, suc, ◌+◌, ◌≤◌, Bool, true, false, not, ◌&&◌, Bytes, if◌then◌else◌, Option, none, some,
  Option-cases, Bool-cases, inl, inr, ◌⊎◌, ◌≡◌, refl, sym, ap, ◌∙◌, arith,
}
use mathlib.Core.Path.{subst}
use bomba.Base.Outcome.{
  M, Outcome, ok, raise, undefined, diverges, ◌>>=◌, ◌>>◌, return, continue, After, After-weaken,
  >>=-After, continue-After,
}
use bomba.Base.Text.{codes}
use bomba.Core.Flags.{no_flags}
use bomba.Core.Path.{find_callable}
use bomba.Core.Structured.{
  MemberType, type_integer, type_float, type_string, type_boolean, type_null, type_array,
  type_object, type_invalid,
}
use bomba.Base.Text.{same_text}
use bomba.JsonRpc.{
  JsonRpcError, method_unknown, invalid_request, Run, Introduce, Environment, on_output, on_input,
  set_called, copy_id, write_id, write_head, write_error, set_responding, introduce_error,
  introduce_result, invoke, go_to_params, perform, call, call_and_return, go_on, on_version, skip,
  call_if_ready, on_id, set_method, call_if_responding, on_method, call_or_skip, on_params,
  on_unexpected, on_member, check_method, after_members, close, new_run, respond_internal, is_some,
}

module _ {I O W Node : Type 0} (env : Environment I O W Node) (count : W → ℕ) (start : ℕ) where
  abbrev pub State : Type 0
  State = Run I O W Node

  -- A call adds one to the count, and leaves the variables of `respondInternal` but through its functors.
  abbrev pub IsCounted : Type 0
  IsCounted =
      (node : Node) (has_arguments is_null : Bool) (introduce : Introduce State) (s : State)
      → After
          (λ t.
            (count t.world ≡ suc (count s.world))
            × (t.called ≡ s.called)
            × (is_some t.params_position ≡ is_some s.params_position)
            × (is_some t.method ≡ is_some s.method))
          (λ t. count t.world ≤ suc (count s.world))
          (env.call node has_arguments is_null introduce s)

  abbrev pub AtMostOnce : State → Type 0
  AtMostOnce s = count s.world ≤ suc start

  -- The state between two members: `params` tells whether the place of the arguments is known, and
  -- `called` whether the method was called, which it is only where that and the method are known.
  pub record Between (params called : Bool) (s : State) : Type 0 where
    pub fresh : s.called ≡ called
    pub known : is_some s.params_position ≡ params
    pub counted : count s.world ≡ (if called then suc start else start)
    pub only_with : called ≡ true → (params ≡ true) × (is_some s.method ≡ true)

  pub Between-AtMostOnce : (b c : Bool) (s : State) → Between b c s → AtMostOnce s
  Between-AtMostOnce b true s h = omega (arith, h.counted)
  Between-AtMostOnce b false s h = omega (arith, h.counted)

  -- The operations that leave all this alone.
  pub on_output-Between :
      {A : Type 0} (b c : Bool) (m : M O A) (s : State)
      → Between b c s
      → After (Between b c) AtMostOnce (on_output env m s)
  on_output-Between b c m s h =
      continue-After (Between b c) AtMostOnce (m s.output) (λ o. record s { output = o })
        (λ a o. ok a (record s { output = o })) (λ o. Between-AtMostOnce b c s h)
        (λ a o. record {
          known = h.known;
          fresh = h.fresh;
          counted = h.counted;
          only_with = h.only_with;
        })

  pub on_input-Between :
      {A : Type 0} (b c : Bool) (m : M I A) (s : State)
      → Between b c s
      → After (Between b c) AtMostOnce (on_input env m s)
  on_input-Between b c m s h =
      continue-After (Between b c) AtMostOnce (m s.input) (λ i. record s { input = i })
        (λ a i. ok a (record s { input = i })) (λ i. Between-AtMostOnce b c s h)
        (λ a i. record {
          known = h.known;
          fresh = h.fresh;
          counted = h.counted;
          only_with = h.only_with;
        })

  abbrev pub Keeps : {A : Type 0} → Bool → Bool → M State A → Type 0
  Keeps b c m = (s : State) → Between b c s → After (Between b c) AtMostOnce (m s)

  pub bind-Keeps :
      {A B : Type 0} (b c : Bool) (m : M State A) (f : A → M State B)
      → Keeps b c m
      → ((a : A) → Keeps b c (f a))
      → Keeps b c (m >>= f)
  bind-Keeps b c m f h k s here =
      >>=-After (Between b c) (Between b c) AtMostOnce m f s (h s here) (λ a t there. k a t there)

  return-Keeps : {A : Type 0} (b c : Bool) (a : A) → Keeps b c (return a)
  return-Keeps b c a s h = h

  pub go_on-Keeps : (b c : Bool) → Keeps b c (go_on env)
  go_on-Keeps b c s h = h

  copy_id-Keeps : (b c : Bool) (t : MemberType) → Keeps b c (copy_id env t)
  unfolding copy_id
  copy_id-Keeps b c type_integer =
      bind-Keeps b c (on_input env (env.inp.read_int no_flags))
        (λ v. on_output env (env.out.write_int no_flags v)) (on_input-Between b c _)
        (λ v. on_output-Between b c _)
  copy_id-Keeps b c type_string =
      bind-Keeps b c (on_input env (env.inp.read_string no_flags))
        (λ v. on_output env (env.out.write_string no_flags v)) (on_input-Between b c _)
        (λ v. on_output-Between b c _)
  copy_id-Keeps b c type_float = λ s h.
      continue-After (Between b c) AtMostOnce (env.copy_float (s.input, s.output))
        (λ p. record s { input = p.0; output = p.1 })
        (λ _ p. ok tt (record s { input = p.0; output = p.1 })) (λ p. Between-AtMostOnce b c s h)
        (λ a p. record {
          known = h.known;
          fresh = h.fresh;
          counted = h.counted;
          only_with = h.only_with;
        })
  copy_id-Keeps b c type_null =
      bind-Keeps b c (on_input env (env.inp.read_null no_flags))
        (λ v. on_output env (env.out.write_null no_flags)) (on_input-Between b c _)
        (λ v. on_output-Between b c _)
  copy_id-Keeps b c _ =
      bind-Keeps b c (on_input env (env.inp.skip_object_element no_flags))
        (λ v. on_output env (env.out.write_null no_flags)) (on_input-Between b c _)
        (λ v. on_output-Between b c _)

  set_responding-Keeps : (b c : Bool) → Keeps b c (set_responding env)
  set_responding-Keeps b c s h = record {
    known = h.known;
    fresh = h.fresh;
    counted = h.counted;
    only_with = h.only_with;
  }

  pub write_id-Keeps :
      (b c : Bool) (on_response_started : M O (Unit {0}))
      → Keeps b c (write_id env on_response_started)
  unfolding write_id
  write_id-Keeps b c on_response_started =
      let head = on_output env (write_head env on_response_started) in
      let identify = on_input env (env.inp.identify_type no_flags) in
      bind-Keeps b c (set_responding env) (λ _. head >> (identify >>= copy_id env))
        (set_responding-Keeps b c)
        (λ _.
          bind-Keeps b c head (λ _. identify >>= copy_id env) (on_output-Between b c _)
            (λ _.
              bind-Keeps b c identify (copy_id env) (on_input-Between b c _) (copy_id-Keeps b c)))

  pub introduce_error-Keeps :
      (b c : Bool) (message : Bytes) (e : JsonRpcError) → Keeps b c (introduce_error env message e)
  unfolding introduce_error
  introduce_error-Keeps b c message e s h =
      let failing : State = record s { failed = true } in
      let between : Between b c failing = record {
        known = h.known;
        fresh = h.fresh;
        counted = h.counted;
        only_with = h.only_with;
      } in
      elim (Bool-cases (not s.responding)) [
        | inl quiet ↦ rw (introduce_error, quiet) between
        | inr loud ↦
            rw (introduce_error, loud)
              (on_output-Between b c (write_error env message e) failing between)
      ]
