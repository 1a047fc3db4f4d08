-- ===== src/Binary/Protocol.antt =====
-- bomba_binary_protocol.hpp, BinaryProtocolServer and BinaryProtocolClient: requests and replies, each
-- a token and its own size in front of what it carries. The server copies the size as the machine has
-- it, which is taken to be little-endian, as the format is.
pub mod Request
pub mod Reply
pub mod Calls
mod Tests
use bomba.Base.{
  ℕ, zero, suc, ◌+◌, ◌-◌, ◌%◌, ◌^◌, Bool, true, false, not, ◌&&◌, List, [], ◌∷◌, ◌++◌, Bytes,
  length, ltb, ◌==◌, if◌then◌else◌, Option, none, some,
}
use bomba.Base.Int.{ℤ, pos, negsuc}
use bomba.Base.Outcome.{
  M, Outcome, ok, raise, undefined, diverges, logic_error, ◌>>=◌, ◌>>◌, return, continue,
}
use bomba.Binary.Input.{Input, read_int}
use bomba.Binary.Number.{FloatConversion, prepare_number, bits_of}
use bomba.Binary.Output.{Output, write_int, write_string}
use bomba.Core.Callable.{Callables, RequestToken}
use bomba.Core.Flags.{Flags, NumericType, uint_8, int_32, uint_32, uint_64, type_to_flags}
use bomba.Core.Integer.{size_of, modulus, to_bits, narrow}
use bomba.Core.Tcp.{ServerReaction, read_on, wrong_reply, disconnect}
use bomba.Tcp.Buffer.{splice}

-- The client: its next token, and the requests that it has written.
pub record Client : Type 0 where
  pub send_order : ℕ
  pub requests : List Bytes

-- The format that both use. `sizes` is what the array of the reader holds, which is not initialised.
pub record Protocol : Type 0 where
  pub fp : FloatConversion
  pub size_type : NumericType
  pub sizes : List ℤ

module _ (p : Protocol) where
  unfoldable pub new_input : Bytes → Input
  new_input contents = record {
    contents = contents;
    position = 0;
    sizes = p.sizes;
    depth = negsuc 0;
  }

  -- `sizeof(int) + sizeof(SizeType)`
  abbrev pub header_size : ℕ
  header_size = 4 + size_of p.size_type

  -- A number of a message's header.
  unfoldable pub read_as : NumericType → M Input ℤ
  read_as t = read_int p.fp p.size_type (type_to_flags t)

  unfoldable pub write_as : NumericType → ℤ → M Output (Unit {0})
  write_as t value = write_int p.fp p.size_type (type_to_flags t) value

  -- Whether there are fewer bytes than a size says, compared as unsigned numbers of 64 bits.
  unfoldable pub is_partial : Bytes → ℤ → Bool
  is_partial bytes size = ltb (length bytes) (to_bits (modulus uint_64) size)

  -- The token and the place of the size, which is written when it is known.
  unfoldable pub start_message : ℤ → M Output ℕ
  unfolding write_as
  start_message id = do
    write_as uint_32 id
    size_position ← λ o. ok (length o) o
    write_as p.size_type (pos 0)
    return size_position

  -- `memcpy` of the size of all that is written, of the type of sizes.
  unfoldable pub fill_size : ℕ → Output → Output
  unfolding splice
  fill_size position o =
      splice position
        (prepare_number (size_of p.size_type) (bits_of p.fp p.size_type (pos (length o)))) o

  module _ {Node W : Type 0} (tree : Callables Output Input Node W) where
    -- The loop of `respond` goes on in the child that was asked for, if there is one.
    unfoldable pub in_child : (Node → M Input (Option Node)) → Option Node → M Input (Option Node)
    in_child again none = return none
    in_child again (some child) = again child

    -- A round reads a byte, so more fuel than bytes is enough.
    unfoldable pub find_method : ℕ → Node → M Input (Option Node)
    unfolding in_child read_as
    find_method zero target = λ _. diverges
    find_method (suc fuel) target = elim (tree.get_child target (pos 0)) [
      | none ↦ return (some target)
      | some _ ↦ (do
        request ← read_as uint_8
        in_child (find_method fuel) (tree.get_child target (narrow int_32 request)))
    ]

    -- The call, and the reply that is sent. The state is what was sent, and the callables' own.
    unfoldable pub answer : ℤ → Node → Input → M (Bytes × W) (ServerReaction × ℕ)
    unfolding start_message fill_size
    answer id target i (sent, w) =
        continue (start_message id []) (λ _. (sent, w))
          (λ position o.
            continue
              (tree.call target (return tt)
                (write_string p.fp p.size_type (type_to_flags p.size_type)) (i, o, w))
              (λ s. let (j, q, v) = s in (sent, v))
              (λ _ s.
                let (j, q, v) = s in
                ok (ServerReaction.ok, j.position) (sent ++ fill_size position q, v)))

    -- `respond` of the server's session.
    unfoldable pub respond : Node → Bytes → M (Bytes × W) (ServerReaction × ℕ)
    unfolding is_partial find_method answer new_input read_as
    respond root input (sent, w) =
        if ltb (length input) header_size
        then ok (read_on, 0) (sent, w)
        else continue (read_as uint_32 (new_input input)) (λ _. (sent, w))
            (λ id i.
              continue (read_as p.size_type i) (λ _. (sent, w))
                (λ size j.
                  if is_partial input (narrow int_32 size)
                  then ok (read_on, 0) (sent, w)
                  else continue (find_method (suc (length input)) root j) (λ _. (sent, w))
                      (λ found k. elim found [
                        | none ↦ ok (disconnect, 0) (sent, w)
                        | some target ↦ answer (narrow int_32 id) target k (sent, w)
                      ])))

    -- The loop of `send` over the parents. It puts each index in front of those in the array `path`,
    -- which has room for `left` more.
    unfoldable pub find_path : ℕ → Node → List ℤ → Outcome (Unit {0}) (List ℤ)
    find_path zero it path = elim (tree.parent it) [
      | none ↦ ok path tt
      | some _ ↦ raise logic_error tt
    ]
    find_path (suc left) it path = elim (tree.parent it) [
      | none ↦ ok path tt
      | some parent ↦ elim (tree.child_name parent it) [
        | none ↦ raise logic_error tt
        | some name ↦ find_path left parent (narrow uint_8 name.1 ∷ path)
      ]
    ]

    unfoldable pub write_path : List ℤ → M Output (Unit {0})
    unfolding write_as
    write_path [] = return tt
    write_path (index ∷ path) = do write_as uint_8 index; write_path path

    -- The text of a request.
    unfoldable pub write_request :
        ℕ → Node → (RequestToken → M Output (Unit {0})) → RequestToken → M Output (Unit {0})
    unfolding start_message find_path write_path fill_size
    write_request max_depth method request token = do
      position ← start_message (pos token)
      λ o.
          continue (find_path max_depth method []) (λ _. o)
            (λ path _. (do write_path path; request token; λ q. ok tt (fill_size position q)) o)

    -- `send`: the request goes to the TCP client, whose buffers are not modelled here.
    unfoldable pub send : ℕ → Node → (RequestToken → M Output (Unit {0})) → M Client RequestToken
    unfolding write_request
    send max_depth method request c =
        let next : Client = record c { send_order = (c.send_order + 1) % 2 ^ 32 } in
        continue (write_request max_depth method request c.send_order []) (λ _. next)
          (λ _ o. ok c.send_order (record next { requests = c.requests ++ (o ∷ []) }))

  -- What the function of `getResponseReader` makes of the data, where `operation` reads the reply.
  unfoldable pub read_response :
      {X : Type 0}
      → RequestToken
      → M (Input × X) (Unit {0})
      → Bytes
      → Bool
      → M X (ServerReaction × (RequestToken × ℤ))
  unfolding is_partial new_input read_as
  read_response token operation bytes identified x =
      if not identified && ltb (length bytes) header_size
      then ok (read_on, (0, pos 0)) x
      else continue (read_as uint_32 (new_input bytes)) (λ _. x)
          (λ id i.
            continue (read_as p.size_type i) (λ _. x)
              (λ read j.
                let received = to_bits (modulus uint_32) id in
                let size = narrow p.size_type read in
                if is_partial bytes size
                then ok (read_on, (received, pos 0)) x
                else if not identified && not (received == token)
                then ok (wrong_reply, (received, size)) x
                else continue (operation (j, x)) (λ s. s.1)
                    (λ _ s. ok (ServerReaction.ok, (token, size)) s.1)))
