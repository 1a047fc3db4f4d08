-- ===== src/Binary/Protocol/Reply.antt =====
-- The server's `respond` on a whole request: the method is called where the arguments are, and its
-- result goes back under the request's token.
use bomba.Base.{
  ℕ, zero, suc, ◌+◌, ◌-◌, ◌≤◌, ◌<◌, ◌^◌, true, false, List, [], ◌∷◌, ◌++◌, Bytes, length,
  length-append, take, ltb, none, ◌≡◌, refl, sym, ap, ◌∙◌, arith, append_assoc,
}
use bomba.Base.Int.{ℤ, pos}
use bomba.Base.Outcome.{ok, return}
use bomba.Binary.Input.{Input, advance}
use bomba.Binary.Number.{bits_of, prepare_number, is_float}
use bomba.Binary.Output.{Output, write_string}
use bomba.Binary.RoundTrip.{Stands, Fits, length-encoded, prepare_number-encoded}
use bomba.Binary.Protocol.{
  Protocol, new_input, header_size, read_as, is_partial, fill_size, answer, respond,
}
use bomba.Binary.Protocol.Request.{
  number_as, read_as-Stands, start_message-lem, fill_size-lem, Leads, path_bytes, find_method-Leads,
}
use bomba.Core.Callable.{Callables}
use bomba.Core.Flags.{uint_8, uint_32, int_32, type_to_flags}
use bomba.Core.Integer.{size_of, narrow, narrow-InRange}
use bomba.Core.Tcp.{ServerReaction}

module _ (p : Protocol) where
  -- A message: the token, the size of all of it, and what it carries.
  unfoldable pub message : ℤ → Bytes → Bytes
  message id body =
      number_as p uint_32 id
      ++ (number_as p p.size_type
            (pos (length (number_as p uint_32 id ++ (number_as p p.size_type (pos 0) ++ body))))
          ++ body)

  -- A size that is not negative in its type, or in an int.
  abbrev pub IsSize : ℕ → Type 0
  IsSize n = Fits p.size_type (pos n) × (n < 2 ^ 31)

  pub length-message :
      (id : ℤ) (body : Bytes) → length (message id body) ≡ header_size p + length body
  unfolding message
  length-message id body =
      let n = length (number_as p uint_32 id ++ (number_as p p.size_type (pos 0) ++ body)) in
      omega (
        arith,
        length-append (number_as p uint_32 id) (number_as p p.size_type (pos n) ++ body),
        length-append (number_as p p.size_type (pos n)) body,
        length-encoded p.fp uint_32 id,
        length-encoded p.fp p.size_type (pos n),
      )

  pub message-shape :
      (id : ℤ) (body : Bytes)
      → message id body
        ≡ number_as p uint_32 id
          ++ (number_as p p.size_type (pos (length (message id body))) ++ body)
  unfolding message
  message-shape id body =
      let none = number_as p p.size_type (pos 0) in
      let n = length (number_as p uint_32 id ++ (none ++ body)) in
      ap (λ (k : ℕ). number_as p uint_32 id ++ (number_as p p.size_type (pos k) ++ body)) {x = n}
        (omega (
          arith,
          length-message id body,
          length-append (number_as p uint_32 id) (none ++ body),
          length-append none body,
          length-encoded p.fp uint_32 id,
          length-encoded p.fp p.size_type (pos 0),
        ))

  -- What reading the header of a message finds, and where it ends.
  pub record Header (id total : ℕ) (input rest : Bytes) : Type 0 where
    pub behind_token : Input
    pub behind : Input
    pub token_read : read_as p uint_32 (new_input p input) ≡ ok (pos id) behind_token
    pub size_read : read_as p p.size_type behind_token ≡ ok (pos total) behind
    pub stands : Stands behind rest
    pub position : behind.position ≡ header_size p

  pub shape-Header :
      (id total : ℕ) (input rest : Bytes)
      → id < 2 ^ 32
      → Fits p.size_type (pos total)
      → input ≡ number_as p uint_32 (pos id) ++ (number_as p p.size_type (pos total) ++ rest)
      → Header id total input rest
  unfolding new_input
  shape-Header id total input rest small fits shape =
      let i = new_input p input in
      let (token, behind) =
        read_as-Stands p i uint_32 (pos id) (number_as p p.size_type (pos total) ++ rest)
          (omega (arith, small)) shape in
      let (read, last) = read_as-Stands p (advance 4 i) p.size_type (pos total) rest fits behind in
      record {
        behind_token = advance 4 i;
        behind = advance (size_of p.size_type) (advance 4 i);
        token_read = token;
        size_read = read;
        stands = last;
        position = omega arith;
      }

  pub message-Header :
      (id : ℕ) (body rest : Bytes)
      → id < 2 ^ 32
      → Fits p.size_type (pos (length (message (pos id) body)))
      → Header id (length (message (pos id) body)) (message (pos id) body ++ rest) (body ++ rest)
  message-Header id body rest small fits =
      let size = number_as p p.size_type (pos (length (message (pos id) body))) in
      shape-Header id (length (message (pos id) body)) (message (pos id) body ++ rest)
        (body ++ rest) small fits
        (ap (λ (l : Bytes). l ++ rest) (message-shape (pos id) body)
          ∙ append_assoc (number_as p uint_32 (pos id)) (size ++ body) rest
          ∙ ap (λ (l : Bytes). number_as p uint_32 (pos id) ++ l) (append_assoc size body rest))

  take-append_past :
      (xs ys : Bytes) (n : ℕ) → length xs ≤ n → take n (xs ++ ys) ≡ xs ++ take (n - length xs) ys
  take-append_past [] ys n h = ap (λ (k : ℕ). take k ys) {x = n} {y = n - 0} (omega arith)
  take-append_past (x ∷ xs) ys zero h = absurd (omega (arith, h))
  take-append_past (x ∷ xs) ys (suc n) h =
      ap (λ (l : Bytes). x ∷ l)
        (take-append_past xs ys n (omega (arith, h))
          ∙ ap (λ (k : ℕ). xs ++ take k ys) {x = n - length xs} {y = suc n - suc (length xs)}
              (omega arith))

  -- The header of a message whose end is missing.
  pub part-Header :
      (id : ℕ) (body : Bytes) (n : ℕ)
      → id < 2 ^ 32
      → Fits p.size_type (pos (length (message (pos id) body)))
      → header_size p ≤ n
      → Header id
          (length (message (pos id) body))
          (take n (message (pos id) body))
          (take (n - header_size p) body)
  part-Header id body n small fits enough =
      let total = length (message (pos id) body) in
      let token = number_as p uint_32 (pos id) in
      let size = number_as p p.size_type (pos total) in
      let token_size : length token ≡ 4 = length-encoded p.fp uint_32 (pos id) in
      let size_size = length-encoded p.fp p.size_type (pos total) in
      shape-Header id total (take n (message (pos id) body)) (take (n - header_size p) body) small
        fits
        (ap (take n) (message-shape (pos id) body)
          ∙ take-append_past token (size ++ body) n (omega (arith, enough, token_size))
          ∙ ap (λ (l : Bytes). token ++ l)
              (take-append_past size body (n - length token)
                  (omega (arith, enough, token_size, size_size))
                ∙ ap (λ (k : ℕ). size ++ take k body) {x = n - length token - length size}
                    {y = n - header_size p} (omega (arith, token_size, size_size))))

  bits_of-narrow :
      (id : ℕ)
      → id < 2 ^ 32
      → bits_of p.fp uint_32 (narrow int_32 (pos id)) ≡ bits_of p.fp uint_32 (pos id)
  unfolding bits_of is_float narrow
  bits_of-narrow id small = ground (arith, small)

  -- An int that was read as a `uint32_t` is written as the same bytes.
  pub message-narrow :
      (id : ℕ) (body : Bytes)
      → id < 2 ^ 32
      → message (narrow int_32 (pos id)) body ≡ message (pos id) body
  unfolding message
  message-narrow id body small =
      let same : number_as p uint_32 (narrow int_32 (pos id)) ≡ number_as p uint_32 (pos id) =
        sym (prepare_number-encoded p.fp uint_32 (narrow int_32 (pos id)))
        ∙ ap (prepare_number 4) (bits_of-narrow id small)
        ∙ prepare_number-encoded p.fp uint_32 (pos id) in
      ap
        (λ (token : Bytes).
          token
          ++ (number_as p p.size_type
                (pos (length (token ++ (number_as p p.size_type (pos 0) ++ body))))
              ++ body))
        same

  pub whole_is_not_partial :
      (id : ℤ) (body rest : Bytes)
      → length (message id body) < 2 ^ 63
      → is_partial p (message id body ++ rest) (pos (length (message id body))) ≡ false
  unfolding is_partial
  whole_is_not_partial id body rest small =
      ground (arith, small, length-append (message id body) rest)

  module _ {Node W : Type 0} (tree : Callables Output Input Node W) where
    -- Called in front of the arguments, the method reads them, and writes its result behind what is
    -- written.
    abbrev pub Answers : Node → Bytes → Bytes → W → W → Type 0
    Answers method args result w v =
        (i : Input) (o : Output) (rest : Bytes)
        → Stands i (args ++ rest)
        → (j : Input) × (tree.call method (return tt)
              (write_string p.fp p.size_type (type_to_flags p.size_type)) (i, o, w)
            ≡ ok true (j, o ++ result, v))
          × (j.position ≡ i.position + length args)

    pub length-path_bytes : (path : List ℤ) → length (path_bytes p tree path) ≡ length path
    length-path_bytes [] = refl
    length-path_bytes (i ∷ path) = omega (
      arith,
      length-append (number_as p uint_8 i) (path_bytes p tree path),
      length-encoded p.fp uint_8 i,
      length-path_bytes path,
    )

    answer-Answers :
        (id : ℕ) (method : Node) (args result rest : Bytes) (w v : W) (i : Input) (sent : Bytes)
        → id < 2 ^ 32
        → Answers method args result w v
        → Stands i (args ++ rest)
        → answer p tree (narrow int_32 (pos id)) method i (sent, w)
          ≡ ok (ServerReaction.ok, i.position + length args) (sent ++ message (pos id) result, v)
    unfolding answer message
    answer-Answers id method args result rest w v i sent small answers at =
        let z = narrow int_32 (pos id) in
        let token = number_as p uint_32 z in
        let none = number_as p p.size_type (pos 0) in
        let (j, run, position) = answers i (token ++ none) rest at in
        let filled : fill_size p 4 ((token ++ none) ++ result) ≡ message (pos id) result =
          ap (fill_size p 4) (append_assoc token none result)
          ∙ fill_size-lem p z result
          ∙ message-narrow id result small in
        rw (answer, start_message-lem p z, run, filled)
          (ap (λ (n : ℕ). ok (ServerReaction.ok, n) (sent ++ message (pos id) result, v)) position)

    -- Whatever follows the request in the input, the server calls its method, takes exactly the request
    -- and sends the reply.
    pub respond-message :
        {root method : Node} {path : List ℤ} (id : ℕ) (args result rest sent : Bytes) (w v : W)
        → id < 2 ^ 32
        → IsSize (length (message (pos id) (path_bytes p tree path ++ args)))
        → Leads p tree root path method
        → tree.get_child method (pos 0) ≡ none
        → Answers method args result w v
        → respond p tree root (message (pos id) (path_bytes p tree path ++ args) ++ rest) (sent, w)
          ≡ ok
              (ServerReaction.ok, length (message (pos id) (path_bytes p tree path ++ args)))
              (sent ++ message (pos id) result, v)
    unfolding respond
    respond-message {root} {method} {path} id args result rest sent w v small size leads leaf
          answers =
        let body = path_bytes p tree path ++ args in
        let total = length (message (pos id) body) in
        let input = message (pos id) body ++ rest in
        let long = length-message (pos id) body in
        let header = message-Header id body rest small size.0 in
        let not_short : ltb (length input) (header_size p) ≡ false =
          ground (arith, long, length-append (message (pos id) body) rest) in
        let as_int : narrow int_32 (pos total) ≡ pos total =
          narrow-InRange int_32 (pos total) (omega (arith, size.1)) in
        let whole = whole_is_not_partial (pos id) body rest (omega (arith, size.1)) in
        let (j, found, stands, position) =
          find_method-Leads p tree leads leaf (suc (length input)) header.behind (args ++ rest)
            (omega (
              arith,
              long,
              length-append (message (pos id) body) rest,
              length-append (path_bytes p tree path) args,
              length-path_bytes path,
            ))
            (header.stands ∙ append_assoc (path_bytes p tree path) args rest) in
        rw (respond, not_short, header.token_read, header.size_read, as_int, whole, found)
          (answer-Answers id method args result rest w v j sent small answers stands
            ∙ ap (λ (n : ℕ). ok (ServerReaction.ok, n) (sent ++ message (pos id) result, v))
                {x = j.position + length args} {y = total}
                (omega (
                  arith,
                  position,
                  header.position,
                  long,
                  length-append (path_bytes p tree path) args,
                  length-path_bytes path,
                )))
