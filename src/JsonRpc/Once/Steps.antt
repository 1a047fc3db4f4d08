-- ===== src/JsonRpc/Once/Steps.antt =====
-- What one member of a request does, by its name.
use bomba.Base.{ℕ, Bool, true, false, Bytes, Bool-cases, inl, inr, ◌≡◌, sym, arith}
use mathlib.Core.Path.{subst}
use bomba.Base.Outcome.{M, ◌>>◌, return, After, >>=-After}
use bomba.Base.Text.{codes}
use bomba.Core.Flags.{no_flags}
use bomba.Base.Text.{same_text}
use bomba.JsonRpc.{
  invalid_request, Environment, on_input, introduce_error, go_on, on_version, on_unexpected,
  on_member,
}
use bomba.JsonRpc.Once.{
  State, IsCounted, AtMostOnce, Between, on_input-Between, Keeps, bind-Keeps, introduce_error-Keeps,
}
use bomba.JsonRpc.Once.Calling.{BetweenAny, any}
use bomba.JsonRpc.Once.Reports.{same_text-eq}
use bomba.JsonRpc.Once.Members.{on_id-any, on_method-any, on_params-any}

module _ {I O W Node : Type 0} (env : Environment I O W Node) (count : W → ℕ) (start : ℕ) where
  on_version-Keeps : (b c : Bool) → Keeps env count start b c (on_version env)
  unfolding on_version
  on_version-Keeps b c s h =
      let wrong : M (State env count start) Bool =
        introduce_error env (codes "Unknown JSON-RPC version") invalid_request >> return false in
      >>=-After (Between env count start b c) (Between env count start b c)
        (AtMostOnce env count start) (on_input env (env.inp.read_string no_flags))
        (λ version. elim (same_text version (codes "2.0")) [ true ↦ go_on env | false ↦ wrong ]) s
        (on_input-Between env count start b c (env.inp.read_string no_flags) s h)
        (λ version t k. elim (Bool-cases (same_text version (codes "2.0"))) [
          | inl right ↦ rw right k
          | inr other ↦ rw other (
              bind-Keeps env count start b c
                (introduce_error env (codes "Unknown JSON-RPC version") invalid_request)
                (λ _. return false)
                (introduce_error-Keeps env count start b c (codes "Unknown JSON-RPC version")
                  invalid_request)
                (λ _ u l. l) t k)
        ])

  on_unexpected-Keeps : (b c : Bool) → Keeps env count start b c (on_unexpected env)
  unfolding on_unexpected
  on_unexpected-Keeps b c =
      bind-Keeps env count start b c
        (introduce_error env (codes "Unexpected member in request") invalid_request)
        (λ _. return false)
        (introduce_error-Keeps env count start b c (codes "Unexpected member in request")
          invalid_request)
        (λ _ u l. l)

  pub was_not_called :
      (b c : Bool) (s : State env count start)
      → Between env count start b c s
      → s.called ≡ false
      → Between env count start b false s
  was_not_called b false s h fresh = h
  was_not_called b true s h fresh = absurd (ground (arith, h.fresh, fresh))

  module _ (counts : IsCounted env count start) (root : Node)
      (on_response_started : M O (Unit {0})) where
    -- A member that is not `params`.
    pub on_member-any :
        (name : Bytes) (b c : Bool) (s : State env count start)
        → same_text name (codes "params") ≡ false
        → Between env count start b c s
        → After
            (BetweenAny env count start b)
            (AtMostOnce env count start)
            (on_member env root on_response_started name s)
    unfolding on_member
    on_member-any name b c s other h = elim (Bool-cases (same_text name (codes "jsonrpc"))) [
      | inl version ↦
          rw (on_member, version)
            (any env count start b c (on_version env s) (on_version-Keeps b c s h))
      | inr not_version ↦ elim (Bool-cases (same_text name (codes "id"))) [
        | inl id ↦
            rw (on_member, not_version, id)
              (on_id-any env count start counts on_response_started b c s h)
        | inr not_id ↦ elim (Bool-cases (same_text name (codes "method"))) [
          | inl method ↦
              rw (on_member, not_version, not_id, method)
                (on_method-any env count start counts root b c s h)
          | inr not_method ↦
              rw (on_member, not_version, not_id, not_method, other)
                (any env count start b c (on_unexpected env s) (on_unexpected-Keeps b c s h))
        ]
      ]
    ]

    pub on_member-params :
        (name : Bytes) (c : Bool) (s : State env count start)
        → same_text name (codes "params") ≡ true
        → Between env count start false c s
        → After
            (BetweenAny env count start true)
            (AtMostOnce env count start)
            (on_member env root on_response_started name s)
    unfolding on_member
    on_member-params name c s is_params h =
        subst
          (λ (n : Bytes).
            After (BetweenAny env count start true) (AtMostOnce env count start)
              (on_member env root on_response_started n s))
          (sym (same_text-eq name (codes "params") is_params))
          (on_params-any env count start counts c s h)
