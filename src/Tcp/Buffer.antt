-- ===== src/Tcp/Buffer.antt =====
-- bomba_tcp_server.hpp, TcpServerBuffer: the bytes of a connection that are not taken yet, in an array
-- of fixed size or, where that is full, in a vector. Indices are not negative here: a message that
-- reaches beyond the input leads to undefined behaviour.
pub mod Memory
pub mod Reads
pub mod Taken
pub mod Spaces
pub mod Room
pub mod Refine
use bomba.Base.{
  ℕ, zero, suc, ◌+◌, ◌-◌, ◌*◌, Bool, true, false, ◌&&◌, ◌||◌, not, [], ◌∷◌, ◌++◌, Bytes, length,
  take, drop, replicate, min, ltb, leb, ◌==◌, if◌then◌else◌,
}
use bomba.Base.Outcome.{M, Outcome, ok, raise, undefined, diverges, ◌>>=◌, return}
use bomba.Core.Tcp.{ServerReaction, read_on, wrong_reply, disconnect}
use bomba.Tcp.Stream.{TcpServerSession, FeedResult, returns, throws, Fed}

abbrev pub response_max_size : ℕ
response_max_size = 2048

-- `ResponseMaxSize * 1.5`
abbrev pub response_buffer_size : ℕ
response_buffer_size = 3072

-- `_responseBuffer` is a part of the vector if there is one, else of the array.
pub record ServerBuffer : Type 0 where
  pub response_array : Bytes
  pub space_start : ℕ
  pub space_size : ℕ
  pub kept_start : ℕ
  pub kept_end : ℕ
  pub long_leftovers : Bytes

unfoldable pub new_buffer : ServerBuffer
new_buffer = record {
  response_array = replicate response_buffer_size 0;
  space_start = 0;
  space_size = response_max_size;
  kept_start = 0;
  kept_end = 0;
  long_leftovers = [];
}

abbrev pub is_empty : Bytes → Bool
is_empty [] = true
is_empty (c ∷ cs) = false

-- Where the unread bytes are.
unfoldable pub memory : ServerBuffer → Bytes
memory b = if is_empty b.long_leftovers then b.response_array else b.long_leftovers

unfoldable pub put_memory : Bytes → ServerBuffer → ServerBuffer
put_memory bytes b =
    if is_empty b.long_leftovers
    then record b { response_array = bytes }
    else record b { long_leftovers = bytes }

-- A write of bytes at an index, as `memcpy`, `memmove` and the socket do it.
unfoldable pub splice : ℕ → Bytes → Bytes → Bytes
splice start bytes target = take start target ++ (bytes ++ drop (start + length bytes) target)

-- `resize` of a vector.
unfoldable pub resize : ℕ → Bytes → Bytes
resize size vector = take size vector ++ replicate (size - length vector) 0

-- What the socket does with the span that `space` returned.
unfoldable pub fill_space : Bytes → ServerBuffer → ServerBuffer
unfolding memory put_memory splice
fill_space chunk b = put_memory (splice b.space_start chunk (memory b)) b

-- The changes of the session to its span, and the bytes that it took where it reports OK.
unfoldable pub after_read : {X : Type 0} → Fed X → ServerBuffer → ServerBuffer
unfolding memory put_memory splice
after_read fed b =
    let changed = put_memory (splice b.kept_start fed.input (memory b)) b in
    elim fed.reaction [
      | returns ServerReaction.ok ↦ record changed { kept_start = b.kept_start + fed.parsed }
      | returns read_on ↦ changed
      | returns wrong_reply ↦ changed
      | returns disconnect ↦ changed
      | throws _ ↦ changed
    ]

-- An exception of the session goes out of `readBuffer` and of `receive`.
abbrev pub fed_outcome : {S : Type 0} → FeedResult → S → Outcome S ServerReaction
fed_outcome (returns reaction) s = ok reaction s
fed_outcome (throws e) s = raise e s

module _ {X : Type 0} (t : TcpServerSession X) where
  -- `readBuffer`
  unfoldable pub read_buffer : M (ServerBuffer × X) ServerReaction
  unfolding memory after_read
  read_buffer (b, x) =
      let input = take (b.kept_end - b.kept_start) (drop b.kept_start (memory b)) in
      let fed = t.feed_to_responder x input in
      if ltb b.kept_end b.kept_start
      then undefined
      else fed_outcome fed.reaction (after_read fed b, fed.session)

  -- What follows a read, where `again` is the loop: a message was taken, or the loop is over.
  unfoldable pub go_on :
      M (ServerBuffer × X) ServerReaction → ServerReaction → M (ServerBuffer × X) ServerReaction
  go_on again read_on s = return read_on s
  go_on again wrong_reply s = return wrong_reply s
  go_on again disconnect s = return disconnect s
  go_on again ServerReaction.ok (b, x) = elim (leb b.kept_end b.kept_start) [
    | true ↦ ok ServerReaction.ok (b, t.notify_message_was_parsed x)
    | false ↦ again (b, t.notify_message_was_parsed x)
  ]

  -- The loop of `receive`.
  unfoldable pub receive_loop : ℕ → M (ServerBuffer × X) ServerReaction
  unfolding read_buffer go_on
  receive_loop zero = λ s. diverges
  receive_loop (suc fuel) = do reaction ← read_buffer; go_on (receive_loop fuel) reaction

-- `length` bytes have been written to the space.
unfoldable pub count_in : ℕ → ServerBuffer → ServerBuffer
unfolding resize
count_in size b =
    let counted = record b { kept_end = b.kept_end + size } in
    if is_empty b.long_leftovers
    then counted
    else record counted { long_leftovers = resize (b.kept_end + size) b.long_leftovers }

-- "Something was read successfully"
unfoldable pub shorten : ServerBuffer → ServerBuffer
unfolding splice
shorten b =
    let left = length b.long_leftovers - b.kept_start in
    if ltb (length b.response_array) left
    then record b {
      long_leftovers = drop b.kept_start b.long_leftovers;
      kept_end = left;
      kept_start = 0;
    }
    else record b {
      response_array = splice 0 (take left (drop b.kept_start b.long_leftovers)) b.response_array;
      kept_end = left;
      kept_start = 0;
      long_leftovers = [];
    }

unfoldable pub shorten_if_read : ℕ → ServerBuffer → ServerBuffer
unfolding shorten
shorten_if_read previous_read_start b =
    if not (is_empty b.long_leftovers) && not (previous_read_start == b.kept_start)
    then shorten b
    else b

-- "Long message, make space at the end of the vector"
unfoldable pub space_in_vector : ServerBuffer → ServerBuffer
unfolding resize
space_in_vector b =
    let size = length b.long_leftovers in
    record b {
      kept_end = size;
      long_leftovers = resize (size + response_buffer_size) b.long_leftovers;
      space_start = size;
      space_size = response_buffer_size;
    }

-- "No more space in the buffer, move it to the vector"
unfoldable pub move_to_vector : ServerBuffer → ServerBuffer
unfolding splice resize
move_to_vector b = record b {
  long_leftovers = splice 0 b.response_array (resize (2 * response_buffer_size) []);
  space_start = b.kept_end;
  space_size = 2 * response_buffer_size - b.kept_end;
}

-- "More space at the start"
unfoldable pub move_to_start : ServerBuffer → ServerBuffer
unfolding splice
move_to_start b =
    let copy_size = b.kept_end - b.kept_start in
    record b {
      response_array =
          splice 0 (take copy_size (drop b.kept_start b.response_array)) b.response_array;
      space_start = copy_size;
      space_size = min b.kept_start response_max_size;
      kept_start = 0;
      kept_end = copy_size;
    }

unfoldable pub space_in_array : M ServerBuffer (Unit {0})
unfolding move_to_vector move_to_start
space_in_array b =
    if b.kept_start == 0 && b.kept_end == response_buffer_size
    then ok tt (move_to_vector b)
    else if b.kept_start == b.kept_end
    then ok tt
        (record b { kept_start = 0; kept_end = 0; space_start = 0; space_size = response_max_size })
    else if ltb b.kept_end b.kept_start
    then undefined
    else if ltb (response_buffer_size - b.kept_end) b.kept_start
    then ok tt (move_to_start b)
    else ok tt (record b {
      space_start = b.kept_end;
      space_size = min (response_buffer_size - b.kept_end) response_max_size;
    })

unfoldable pub make_space : M ServerBuffer (Unit {0})
unfolding space_in_vector space_in_array
make_space b = if is_empty b.long_leftovers then space_in_array b else ok tt (space_in_vector b)

module _ {X : Type 0} (t : TcpServerSession X) where
  -- What `receive` does when the loop is over.
  unfoldable pub after_loop : ℕ → ServerReaction → M (ServerBuffer × X) Bool
  unfolding shorten_if_read make_space
  after_loop previous_read_start disconnect s = ok false s
  after_loop previous_read_start reaction (b, x) =
      elim (make_space (shorten_if_read previous_read_start b)) [
        | ok _ made ↦ ok true (made, x)
        | raise e made ↦ raise e (made, x)
        | undefined ↦ undefined
        | diverges ↦ diverges
      ]

  -- `receive`, where `error` tells that the socket reported one.
  unfoldable pub receive : ℕ → Bool → ℕ → M (ServerBuffer × X) Bool
  unfolding count_in receive_loop after_loop
  receive fuel error size (b, x) =
      if error || size == 0
      then ok false (b, x)
      else (do reaction ← receive_loop t fuel; after_loop b.kept_start reaction)
          (count_in size b, x)
