-- ===== src/Binary/Protocol/Calls.antt =====
-- A remote call from the client's `send` through the server's `respond` to the client's reader, and
-- what both do with a message that is not all there.
use bomba.Base.{
  ℕ, ◌+◌, ◌≤◌, ◌<◌, ◌^◌, ◌%◌, Bool, true, false, not, ◌&&◌, List, [], ◌∷◌, ◌++◌, Bytes, length,
  length-append, length-take, take, ltb, ◌==◌, Bool-cases, inl, inr, none, ◌≡◌, refl, ap, ◌∙◌,
  arith, append_assoc,
}
use bomba.Base.Int.{ℤ, pos}
use bomba.Base.Outcome.{M, Outcome, ok, ◌>>◌, >>=-ok, continue}
use bomba.Binary.Input.{Input}
use bomba.Binary.Output.{Output}
use bomba.Binary.RoundTrip.{Stands, Fits}
use bomba.Binary.Protocol.{
  Protocol, Client, header_size, is_partial, start_message, fill_size, find_path, write_path,
  write_request, send, respond, read_response,
}
use bomba.Binary.Protocol.Request.{
  number_as, start_message-lem, fill_size-lem, IsTree, Leads, find_path-lem, path_bytes,
  write_path-lem,
}
use bomba.Binary.Protocol.Reply.{
  message, IsSize, length-message, message-Header, part-Header, whole_is_not_partial, Answers,
  respond-message,
}
use bomba.Core.Callable.{Callables, RequestToken}
use bomba.Core.Flags.{
  NumericType, uint_8, uint_16, uint_32, uint_64, int_8, int_16, int_32, int_64, float_16, float_32,
  float_64,
}
use bomba.Core.Integer.{modulus, to_bits, narrow, narrow-InRange}
use bomba.Core.Tcp.{ServerReaction, read_on}

module _ (p : Protocol) where
  -- A size is kept by its type.
  size_in_type : (t : NumericType) (n : ℕ) → Fits t (pos n) → narrow t (pos n) ≡ pos n
  size_in_type int_8 n h = narrow-InRange int_8 (pos n) h
  size_in_type uint_8 n h = narrow-InRange uint_8 (pos n) h
  size_in_type int_16 n h = narrow-InRange int_16 (pos n) h
  size_in_type uint_16 n h = narrow-InRange uint_16 (pos n) h
  size_in_type int_32 n h = narrow-InRange int_32 (pos n) h
  size_in_type uint_32 n h = narrow-InRange uint_32 (pos n) h
  size_in_type int_64 n h = narrow-InRange int_64 (pos n) h
  size_in_type uint_64 n h = narrow-InRange uint_64 (pos n) (omega (arith, h))
  size_in_type float_16 n h = absurd h
  size_in_type float_32 n h = absurd h
  size_in_type float_64 n h = absurd h

  is_partial-less :
      (bytes : Bytes) (total : ℕ)
      → length bytes < total
      → total < 2 ^ 63
      → is_partial p bytes (pos total) ≡ true
  unfolding is_partial
  is_partial-less bytes total less small = ground (arith, less, small)

  -- The reader of the reply is at its result, and takes it.
  abbrev pub Reads : {X : Type 0} → M (Input × X) (Unit {0}) → Bytes → X → X → Type 0
  Reads operation result x y =
      (i : Input) (rest : Bytes)
      → Stands i (result ++ rest)
      → (j : Input) × (operation (i, x) ≡ ok tt (j, y))

  read_response-message :
      {X : Type 0} (token : ℕ) (operation : M (Input × X) (Unit {0})) (result rest : Bytes)
      (identified : Bool) (x y : X)
      → token < 2 ^ 32
      → IsSize p (length (message p (pos token) result))
      → Reads operation result x y
      → read_response p token operation (message p (pos token) result ++ rest) identified x
        ≡ ok (ServerReaction.ok, (token, pos (length (message p (pos token) result)))) y
  unfolding read_response
  read_response-message token operation result rest identified x y small size reads =
      let total = length (message p (pos token) result) in
      let input = message p (pos token) result ++ rest in
      let long = length-message p (pos token) result in
      let header = message-Header p token result rest small size.0 in
      let enough : ltb (length input) (header_size p) ≡ false =
        ground (arith, long, length-append (message p (pos token) result) rest) in
      let not_short : (not identified && ltb (length input) (header_size p)) ≡ false =
        ground (arith, enough) in
      let as_size = size_in_type p.size_type total size.0 in
      let whole = whole_is_not_partial p (pos token) result rest (omega (arith, size.1)) in
      let received : to_bits (modulus uint_32) (pos token) ≡ token = omega (arith, small) in
      let same : (not identified && not (token == token)) ≡ false = ground arith in
      let (j, run) = reads header.behind rest header.stands in
      rw
        (
          read_response, not_short, header.token_read, header.size_read, as_size, whole, received,
          same, run,
        )
        refl

  module _ {Node W : Type 0} (tree : Callables Output Input Node W) where
    write_request-message :
        {root method : Node} {path : List ℤ} (max_depth : ℕ) (token : ℕ) (args : Bytes)
        (request : RequestToken → M Output (Unit {0}))
        → IsTree p tree
        → tree.parent root ≡ none
        → Leads p tree root path method
        → length path ≤ max_depth
        → ((o : Output) → request token o ≡ ok tt (o ++ args))
        → write_request p tree max_depth method request token []
          ≡ ok tt (message p (pos token) (path_bytes p tree path ++ args))
    unfolding write_request message
    write_request-message {root} {method} {path} max_depth token args request is_tree top leads
          short writes =
        let id = number_as p uint_32 (pos token) in
        let none = number_as p p.size_type (pos 0) in
        let header = id ++ none in
        let indices = path_bytes p tree path in
        let finish : ℕ → M Output (Unit {0}) = λ position q. ok tt (fill_size p position q) in
        let body : ℕ → List ℤ → M Output (Unit {0}) =
          λ position found. (do write_path p tree found; request token; finish position) in
        let rest : ℕ → M Output (Unit {0}) = λ position o.
          continue (find_path p tree max_depth method []) (λ _. o)
            (λ found _. body position found o) in
        let ordered : (header ++ indices) ++ args ≡ id ++ (none ++ (indices ++ args)) =
          append_assoc header indices args ∙ append_assoc id none (indices ++ args) in
        >>=-ok (start_message p (pos token)) rest {s = []} (start_message-lem p (pos token))
        ∙ ap
            (λ (o : Outcome (Unit {0}) (List ℤ)).
              continue o (λ _. header) (λ found _. body 4 found header))
            (find_path-lem p tree max_depth is_tree top leads short)
        ∙ >>=-ok (write_path p tree path) (λ _. (do request token; finish 4)) {s = header}
            (write_path-lem p tree path header)
        ∙ >>=-ok (request token) (λ _. finish 4) {s = header ++ indices}
            (writes (header ++ indices))
        ∙ ap (λ (l : Bytes). ok tt l)
            (ap (fill_size p 4) ordered ∙ fill_size-lem p (pos token) (indices ++ args))

    -- A call that went out, was answered and came back.
    pub record Called {X : Type 0} (max_depth : ℕ) (root method : Node)
        (request : RequestToken → M Output (Unit {0})) (operation : M (Input × X) (Unit {0}))
        (c : Client) (behind_request behind_reply sent : Bytes) (w v : W) (x y : X) : Type 0 where
      pub request_bytes : Bytes
      pub reply_bytes : Bytes
      pub went_out :
          send p tree max_depth method request c
          ≡ ok c.send_order (record {
            send_order = (c.send_order + 1) % 2 ^ 32;
            requests = c.requests ++ (request_bytes ∷ []);
          })
      pub answered :
          respond p tree root (request_bytes ++ behind_request) (sent, w)
          ≡ ok (ServerReaction.ok, length request_bytes) (sent ++ reply_bytes, v)
      pub came_back :
          read_response p c.send_order operation (reply_bytes ++ behind_reply) false x
          ≡ ok (ServerReaction.ok, (c.send_order, pos (length reply_bytes))) y

    -- Of a method, a callable below the root without a first child, no deeper than the array of
    -- indices, where the tree is coherent and the children have indices of a byte: if the functors write
    -- and read the arguments and the result, the method answers these with that, the token is a
    -- `uint32_t`, and both messages are no longer than their size type and an int can say, the request
    -- that `send` writes is answered by `respond`, which takes exactly the request whatever is behind it
    -- and sends a reply; from that, whatever is behind it too, the client's reader takes the result,
    -- under the token of the request. The client's next token is the next `uint32_t`.
    pub remote_call :
        {X : Type 0} {root method : Node} {path : List ℤ} (max_depth : ℕ)
        (request : RequestToken → M Output (Unit {0})) (operation : M (Input × X) (Unit {0}))
        (c : Client) (args result behind_request behind_reply sent : Bytes) (w v : W) (x y : X)
        → IsTree p tree
        → tree.parent root ≡ none
        → Leads p tree root path method
        → length path ≤ max_depth
        → tree.get_child method (pos 0) ≡ none
        → c.send_order < 2 ^ 32
        → IsSize p (length (message p (pos c.send_order) (path_bytes p tree path ++ args)))
        → IsSize p (length (message p (pos c.send_order) result))
        → ((o : Output) → request c.send_order o ≡ ok tt (o ++ args))
        → Answers p tree method args result w v
        → Reads operation result x y
        → Called max_depth root method request operation c behind_request behind_reply sent w v x y
    unfolding send
    remote_call {path = path} max_depth request operation c args result behind_request behind_reply
          sent w v x y is_tree top leads short leaf small request_size reply_size writes answers
          reads =
        record {
          request_bytes = message p (pos c.send_order) (path_bytes p tree path ++ args);
          reply_bytes = message p (pos c.send_order) result;
          went_out =
              rw
                (
                  send,
                  write_request-message max_depth c.send_order args request is_tree top leads short
                      writes,
                )
                refl;
          answered =
              respond-message p tree c.send_order args result behind_request sent w v small
                request_size leads leaf answers;
          came_back =
              read_response-message c.send_order operation result behind_reply false x y small
                reply_size reads;
        }

    -- Of a request whose token is a uint32_t, and whose size with the header is one that the size type and
    -- an int can say, the server takes nothing, calls nothing and sends nothing as long as a part of it is
    -- missing.
    pub respond-part :
        (root : Node) (id : ℕ) (body sent : Bytes) (w : W) (n : ℕ)
        → id < 2 ^ 32
        → IsSize p (length (message p (pos id) body))
        → n < length (message p (pos id) body)
        → respond p tree root (take n (message p (pos id) body)) (sent, w)
          ≡ ok (read_on, 0) (sent, w)
    unfolding respond
    respond-part root id body sent w n small size missing =
        let total = length (message p (pos id) body) in
        let input = take n (message p (pos id) body) in
        let long : length input ≡ n =
          omega (arith, length-take n (message p (pos id) body), missing) in
        elim (Bool-cases (ltb (length input) (header_size p))) [
          | inl short ↦ rw (respond, short) refl
          | inr enough ↦
              let header = part-Header p id body n small size.0 (ground (arith, enough, long)) in
              let as_int : narrow int_32 (pos total) ≡ pos total =
                narrow-InRange int_32 (pos total) (omega (arith, size.1)) in
              let partial : is_partial p input (pos total) ≡ true =
                is_partial-less input total (omega (arith, long, missing))
                  (omega (arith, size.1)) in
              rw (respond, enough, header.token_read, header.size_read, as_int, partial) refl
        ]
