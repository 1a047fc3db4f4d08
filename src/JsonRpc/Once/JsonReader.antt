-- ===== src/JsonRpc/Once/JsonReader.antt =====
-- The reader of JSON, as `respondInternal` uses it: every run of its `readObject` reports members.
use bomba.Base.{
  ℕ, zero, suc, Bool, true, false, List, [], ◌∷◌, Bytes, ◌==◌, Bool-cases, inl, inr, ◌≡◌, refl,
}
use bomba.Base.Outcome.{
  M, Outcome, ok, raise, undefined, diverges, bind, ◌>>=◌, ◌>>◌, return, remote_error,
}
use bomba.Json.Input.{Input, eat_whitespace, get_char, peek_char, read_string}
use bomba.Json.Object.{lift, after_brace, member_loop, read_object}
use bomba.JsonRpc.{Run}
use bomba.JsonRpc.Once.Reports.{
  Reports, ended, failed, lost, endless, went_on, stopped, threw, member_lost, member_endless,
}

module _ (O W Node : Type 0) where
  abbrev State : Type 0
  State = Run Input O W Node

  -- What the functor captures by reference is the rest of the state.
  abbrev captured : {A : Type 0} → Outcome State A → Outcome (Input × State) A
  captured o = elim o [
    | ok a t ↦ ok a (t.input, t)
    | raise e t ↦ raise e (t.input, t)
    | undefined ↦ undefined
    | diverges ↦ diverges
  ]

  abbrev released : Outcome (Input × State) (Unit {0}) → Outcome State (Unit {0})
  released o = elim o [
    | ok a (i, t) ↦ ok a (record t { input = i })
    | raise e (i, t) ↦ raise e (record t { input = i })
    | undefined ↦ undefined
    | diverges ↦ diverges
  ]

  abbrev on_each : (Bytes → M State Bool) → Bytes → ℕ → M (Input × State) Bool
  on_each f name index (i, t) = captured (f name (record t { input = i }))

  abbrev pub read_members : ℕ → (Bytes → M State Bool) → M State (Unit {0})
  read_members fuel f s = released (read_object (on_each f) fuel (s.input, s))

  module _ (f : Bytes → M State Bool) where
    abbrev IsReported : State → Outcome (Input × State) (Unit {0}) → Type 0
    IsReported s o = (names : List Bytes) × Reports f names s (released o)

    -- A call on the reader, in front of what is reported.
    from_reader :
        {A : Type 0} (o : Outcome Input A) (s : State) (k : A → M (Input × State) (Unit {0}))
        → ((a : A) (j : Input) → IsReported s (k a (j, s)))
        → IsReported s (bind (lift (λ (i : Input). o) (s.input, s)) k)
    from_reader (ok a j) s k h = h a j
    from_reader (raise e j) s k h = ([], failed s e j)
    from_reader undefined s k h = ([], lost s)
    from_reader diverges s k h = ([], endless s)

    read_first :
        {A : Type 0} (m : M Input A) (i : Input) (s : State) (k : A → M (Input × State) (Unit {0}))
        → ((a : A) (j : Input) → IsReported s (k a (j, s)))
        → IsReported s ((lift m >>= k) (i, s))
    read_first m i s k h = from_reader (m i) s k h

    from_reader_then :
        {A : Type 0} (o : Outcome Input A) (s : State) (k : A → M (Input × State) (Unit {0}))
        (last : M (Input × State) (Unit {0}))
        → ((a : A) (j : Input) → IsReported s ((k a >> last) (j, s)))
        → IsReported s (bind (bind (lift (λ (i : Input). o) (s.input, s)) k) (λ _. last))
    from_reader_then (ok a j) s k last h = h a j
    from_reader_then (raise e j) s k last h = ([], failed s e j)
    from_reader_then undefined s k last h = ([], lost s)
    from_reader_then diverges s k last h = ([], endless s)

    read_then :
        {A : Type 0} (m : M Input A) (i : Input) (s : State) (k : A → M (Input × State) (Unit {0}))
        (last : M (Input × State) (Unit {0}))
        → ((a : A) (j : Input) → IsReported s ((k a >> last) (j, s)))
        → IsReported s (((lift m >>= k) >> last) (i, s))
    read_then m i s k last h = from_reader_then (m i) s k last h

    last_read :
        {A : Type 0} (o : Outcome Input A) (s : State) (k : A → M (Input × State) (Unit {0}))
        → ((a : A) (j : Input) → Reports f [] s (released (k a (j, s))))
        → Reports f [] s (released (bind (lift (λ (i : Input). o) (s.input, s)) k))
    last_read (ok a j) s k h = h a j
    last_read (raise e j) s k h = failed s e j
    last_read undefined s k h = lost s
    last_read diverges s k h = endless s

    -- What follows the members: a closing brace.
    abbrev close_brace : M (Input × State) (Unit {0})
    close_brace = do lift eat_whitespace; c ← lift get_char; return tt

    close_brace-Reports : (i : Input) (s : State) → Reports f [] s (released (close_brace (i, s)))
    close_brace-Reports i s =
        last_read (eat_whitespace i) s (λ _. (do c ← lift get_char; return tt))
          (λ _ j. last_read (get_char j) s (λ _. return tt) (λ _ k. ended s k))

    -- The functor's turn.
    from_member :
        (name : Bytes) (i : Input) (s : State) (k : Bool → M (Input × State) (Unit {0}))
        (last : M (Input × State) (Unit {0})) (o : Outcome State Bool)
        → f name (record s { input = i }) ≡ o
        → ((t : State) → IsReported t ((k true >> last) (t.input, t)))
        → ((t : State) → Reports f [] t (released ((k false >> last) (t.input, t))))
        → IsReported s (bind (bind (captured o) k) (λ _. last))
    from_member name i s k last (ok true t) e more over =
        let (names, rest) = more t in (name ∷ names, went_on i e rest)
    from_member name i s k last (ok false t) e more over = (name ∷ [], stopped i e (over t))
    from_member name i s k last (raise x t) e more over = (name ∷ [], threw i e)
    from_member name i s k last undefined e more over = (name ∷ [], member_lost i e)
    from_member name i s k last diverges e more over = (name ∷ [], member_endless i e)

    member_loop-IsReported :
        (fuel index : ℕ) (i : Input) (s : State)
        → IsReported s ((member_loop (on_each f) fuel index >> close_brace) (i, s))
    unfolding member_loop
    member_loop-IsReported zero index i s = ([], endless s)
    member_loop-IsReported (suc fuel) index i s =
        let go_on : Bool → M (Input × State) (Unit {0}) = λ more. elim more [
          | true ↦ member_loop (on_each f) fuel (suc index)
          | false ↦ return tt
        ] in
        let member : M (Input × State) (Unit {0}) = (do
          name ← lift read_string
          more ← on_each f name index
          go_on more) in
        let after_peek : ℕ → M (Input × State) (Unit {0}) =
          λ c. elim (c == b'}') [ true ↦ return tt | false ↦ member ] in
        read_then eat_whitespace i s (λ _. lift peek_char >>= after_peek) close_brace
          (λ _ j. read_then peek_char j s after_peek close_brace (λ c k.
            elim (Bool-cases (c == b'}')) [
              | inl closed ↦ rw closed (([], close_brace-Reports k s))
              | inr opened ↦ rw opened (
                  read_then read_string k s (λ name. (do more ← on_each f name index; go_on more))
                    close_brace
                    (λ name l.
                      from_member name l s go_on close_brace (f name (record s { input = l })) refl
                        (λ t. member_loop-IsReported fuel (suc index) t.input t)
                        (λ t. close_brace-Reports t.input t)))
            ]))

    after_brace-IsReported :
        (b : Bool) (fuel : ℕ) (i : Input) (s : State)
        → IsReported s
            ((after_brace (on_each f) b >> (member_loop (on_each f) fuel 0 >> close_brace)) (i, s))
    after_brace-IsReported true fuel i s = member_loop-IsReported fuel 0 i s
    after_brace-IsReported false fuel i s = ([], failed s remote_error i)

    -- Whatever the text is, and whatever the functor does, `readObject` of JSON reports members to it.
    pub read_members-Reports :
        (fuel : ℕ) (s : State) → (names : List Bytes) × Reports f names s (read_members fuel f s)
    unfolding read_object
    read_members-Reports fuel s =
        let start : ℕ → M (Input × State) (Unit {0}) = λ brace.
          after_brace (on_each f) (brace == b'{')
          >> (member_loop (on_each f) fuel 0 >> close_brace) in
        read_first eat_whitespace s.input s (λ _. lift get_char >>= start)
          (λ _ j.
            read_first get_char j s start (λ c k. after_brace-IsReported (c == b'{') fuel k s))
