-- ===== src/Tcp/Buffer/Refine.antt =====
-- TcpServerBuffer implements the queue of Stream: what it feeds to the session is what a queue would,
-- and there is always room for more.
use bomba.Base.{
  if_false, ℕ, zero, suc, ◌+◌, ◌≤◌, ◌<◌, Bool, true, false, [], ◌∷◌, ◌++◌, Bytes, length,
  length-append, length-drop, drop, leb, ◌==◌, if◌then◌else◌, Bool-cases, inl, inr, ◌≡◌, refl, sym,
  ap, ◌∙◌, arith,
}
use mathlib.Core.Path.{subst}
use bomba.Base.Outcome.{Outcome, ok, raise, M, bind, ◌>>=◌}
use bomba.Core.Tcp.{ServerReaction, read_on, wrong_reply, disconnect}
use bomba.Tcp.Stream.{
  TcpServerSession, FeedResult, returns, throws, TakesMessages, Left, take_messages, arrive,
}
use bomba.Tcp.Buffer.{
  ServerBuffer, memory, put_memory, splice, resize, is_empty, response_buffer_size, fill_space,
  count_in, fed_outcome, receive_loop, shorten_if_read, make_space, after_loop, receive,
}
use bomba.Tcp.Buffer.Memory.{Holds, Holds-arrive, Holds-cut, length-resize, length-splice_inside}
use bomba.Tcp.Buffer.Taken.{receive_loop-take_messages, take_messages-ok, take_messages-other}
use bomba.Tcp.Buffer.Reads.{
  Unread, SameShape, put_memory-SameShape, put_memory-kept_start, reaction-cases,
}
use bomba.Tcp.Buffer.Room.{make_space-IsReady}
use bomba.Tcp.Buffer.Spaces.{IsReady, memory-array, memory-vector, not_empty}

-- What the loop of `receive` starts with.
record Arrived (b : ServerBuffer) (unread : Bytes) : Type 0 where
  kept : Unread b unread
  array_size : length b.response_array ≡ response_buffer_size
  full : is_empty b.long_leftovers ≡ false → length b.long_leftovers ≡ b.kept_end

count_in-Arrived :
    (b : ServerBuffer) (size : ℕ) (unread : Bytes)
    → length b.response_array ≡ response_buffer_size
    → Holds (memory b) b.kept_start (b.kept_end + size) unread
    → 1 ≤ length unread
    → Arrived (count_in size b) unread
unfolding count_in memory
count_in-Arrived b size unread array h some = elim (Bool-cases (is_empty b.long_leftovers)) [
  | inl e ↦
      let c : ServerBuffer = record b { kept_end = b.kept_end + size } in
      let eq : count_in size b ≡ c = rw (e, count_in) in
      subst (λ (d : ServerBuffer). Arrived d unread) (sym eq)
        (record {
          kept =
              subst (λ (l : Bytes). Holds l b.kept_start (b.kept_end + size) unread)
                (memory-array b e ∙ sym (memory-array c e)) h;
          array_size = array;
          full = λ no. cc;
        })
  | inr e ↦
      let vector = resize (b.kept_end + size) b.long_leftovers in
      let c : ServerBuffer = record b { kept_end = b.kept_end + size; long_leftovers = vector } in
      let long = length-resize (b.kept_end + size) b.long_leftovers in
      let still = not_empty vector (omega (arith, long, some, h.ends)) in
      let eq : count_in size b ≡ c = rw (e, count_in) in
      subst (λ (d : ServerBuffer). Arrived d unread) (sym eq)
        (record {
          kept =
              subst (λ (l : Bytes). Holds l b.kept_start (b.kept_end + size) unread)
                (sym (memory-vector c still))
                (Holds-cut (
                  subst (λ (l : Bytes). Holds l b.kept_start (b.kept_end + size) unread)
                    (memory-vector b e) h));
          array_size = array;
          full = λ no. long;
        })
]

fill_space-Arrived :
    (b : ServerBuffer) (unread chunk : Bytes)
    → IsReady b unread
    → 1 ≤ length chunk
    → length chunk ≤ b.space_size
    → Arrived (count_in (length chunk) (fill_space chunk b)) (unread ++ chunk)
unfolding fill_space
fill_space-Arrived b unread chunk ready some fits =
    let bytes = splice b.space_start chunk (memory b) in
    let written : Holds bytes b.kept_start (b.kept_end + length chunk) (unread ++ chunk) =
      subst
        (λ (n : ℕ).
          Holds (splice n chunk (memory b)) b.kept_start (b.kept_end + length chunk)
            (unread ++ chunk))
        (sym ready.behind) (Holds-arrive chunk ready.kept) in
    let same : length bytes ≡ length (memory b) =
      length-splice_inside b.space_start chunk (memory b) (omega (arith, fits, ready.inside)) in
    let (shape, is_bytes) = put_memory-SameShape bytes b same in
    let c = put_memory bytes b in
    count_in-Arrived c (length chunk) (unread ++ chunk) (shape.array_size ∙ ready.array_size)
      (subst (λ (l : Bytes). Holds l c.kept_start (c.kept_end + length chunk) (unread ++ chunk))
        (sym is_bytes)
        (subst (λ (n : ℕ). Holds bytes n (c.kept_end + length chunk) (unread ++ chunk))
          (sym (put_memory-kept_start bytes b))
          (subst (λ (n : ℕ). Holds bytes b.kept_start (n + length chunk) (unread ++ chunk))
            (sym shape.kept_end) written)))
      (omega (arith, some, length-append unread chunk))

-- More fuel than bytes makes no difference.
take_messages_fuel :
    {X : Type 0} (t : TcpServerSession X) (n m : ℕ) (x : X) (unread : Bytes)
    → TakesMessages t
    → length unread < n
    → length unread < m
    → take_messages t n x unread ≡ take_messages t m x unread
take_messages_fuel t zero m x unread takes a b = absurd (omega (arith, a))
take_messages_fuel t (suc n) zero x unread takes a b = absurd (omega (arith, b))
take_messages_fuel t (suc n) (suc m) x unread takes a b =
    let fed = t.feed_to_responder x unread in
    let rest = drop fed.parsed fed.input in
    let (same, taken) = takes x unread in
    elim (reaction-cases fed.reaction) [
      | inr other ↦
          take_messages-other t n x unread other ∙ sym (take_messages-other t m x unread other)
      | inl e ↦
          let shorter : length rest < length unread =
            omega (arith, same, length-drop fed.parsed fed.input, (taken e).0, (taken e).1) in
          take_messages-ok t n x unread e
          ∙ ap
              (λ (l : Left _).
                if leb (length rest) 0
                then record {
                  last = returns ServerReaction.ok;
                  unread = rest;
                  session = t.notify_message_was_parsed fed.session;
                }
                else l)
              (take_messages_fuel t n m (t.notify_message_was_parsed fed.session) rest takes
                (omega (arith, a, shorter)) (omega (arith, b, shorter)))
          ∙ sym (take_messages-ok t m x unread e)
    ]

abbrev pub is_open : ServerReaction → Bool
is_open disconnect = false
is_open _ = true

-- What `receive` returns or throws after the last result of the session.
abbrev pub received_outcome : {S : Type 0} → FeedResult → S → Outcome S Bool
received_outcome (returns reaction) s = ok (is_open reaction) s
received_outcome (throws e) s = raise e s

-- The connection goes on.
abbrev pub stays_open : FeedResult → Bool
stays_open (returns reaction) = is_open reaction
stays_open (throws e) = false

module _ {X : Type 0} (t : TcpServerSession X) where
  after_loop-open :
      (previous : ℕ) (r : ServerReaction) (b c : ServerBuffer) (x : X)
      → is_open r ≡ true
      → make_space (shorten_if_read previous b) ≡ ok tt c
      → after_loop t previous r (b, x) ≡ ok true (c, x)
  unfolding after_loop
  after_loop-open previous ServerReaction.ok b c x e h = rw (h, after_loop)
  after_loop-open previous read_on b c x e h = rw (h, after_loop)
  after_loop-open previous wrong_reply b c x e h = rw (h, after_loop)
  after_loop-open previous disconnect b c x e h = cc

  after_loop-closed :
      (previous : ℕ) (r : ServerReaction) (b : ServerBuffer) (x : X)
      → is_open r ≡ false
      → after_loop t previous r (b, x) ≡ ok false (b, x)
  unfolding after_loop
  after_loop-closed previous ServerReaction.ok b x e = cc
  after_loop-closed previous read_on b x e = cc
  after_loop-closed previous wrong_reply b x e = cc
  after_loop-closed previous disconnect b x e = refl

some_bytes : (xs : Bytes) → is_empty xs ≡ false → 1 ≤ length xs
some_bytes [] e = cc
some_bytes (x ∷ xs) e = omega arith

-- What the loop leaves is still an arrived buffer.
SameShape-Arrived :
    {b c : ServerBuffer} {unread rest : Bytes}
    → Arrived b unread
    → SameShape b c
    → Unread c rest
    → Arrived c rest
SameShape-Arrived {b} {c} {unread} {rest} arrived shape kept = record {
  kept = kept;
  array_size = shape.array_size ∙ arrived.array_size;
  full = λ some.
      shape.vector_size
      ∙ arrived.full (
          not_empty b.long_leftovers
            (omega (arith, shape.vector_size, some_bytes c.long_leftovers some)))
      ∙ sym shape.kept_end;
}

-- What the server has after a chunk: the session is what it is for the queue, and there is room.
pub record Kept {X : Type 0} (left : Left X) (outcome : Outcome (ServerBuffer × X) Bool)
    : Type 0 where
  pub buffer : ServerBuffer
  pub run : outcome ≡ received_outcome left.last (buffer, left.session)
  pub ready : stays_open left.last ≡ true → IsReady buffer left.unread

module _ {X : Type 0} (t : TcpServerSession X) (takes : TakesMessages t) where
  after_loop-outcome :
      (previous : ℕ) (result : FeedResult) (unread : Bytes) (y : X) (b : ServerBuffer)
      → Arrived b unread
      → Kept
          (record { last = result; unread = unread; session = y })
          (bind (fed_outcome result (b, y)) (after_loop t previous))
  after_loop-outcome previous (throws e) unread y b arrived = record {
    buffer = b;
    run = refl;
    ready = λ no. absurd (cc);
  }
  after_loop-outcome previous (returns reaction) unread y b arrived =
      let (c, run, ready) =
        make_space-IsReady previous b unread arrived.array_size arrived.full arrived.kept in
      elim (Bool-cases (is_open reaction)) [
        | inl e ↦ record {
          buffer = c;
          run =
              after_loop-open t previous reaction b c y e run
              ∙ ap (λ (o : Bool). ok o (c, y)) (sym e);
          ready = λ _. ready;
        }
        | inr e ↦ record {
          buffer = b;
          run =
              after_loop-closed t previous reaction b y e ∙ ap (λ (o : Bool). ok o (b, y)) (sym e);
          ready = λ no. absurd (cc);
        }
      ]

  loop-Kept :
      (fuel previous : ℕ) (b : ServerBuffer) (x : X) (unread : Bytes)
      → Arrived b unread
      → length unread < fuel
      → Kept
          (take_messages t fuel x unread)
          ((do reaction ← receive_loop t fuel; after_loop t previous reaction) (b, x))
  loop-Kept fuel previous b x unread arrived enough =
      let left = take_messages t fuel x unread in
      let (c, run, shape, kept) =
        receive_loop-take_messages t fuel b x unread takes arrived.kept enough in
      subst
        (λ (o : Outcome (ServerBuffer × X) ServerReaction).
          Kept left (bind o (after_loop t previous)))
        (sym run)
        (after_loop-outcome previous left.last left.unread left.session c
          (SameShape-Arrived arrived shape kept))

  -- Where a buffer is ready for more, the socket has written at least one byte and at most as many as
  -- there is space for, and the fuel is more than all unread bytes, the session is fed as a queue of
  -- bytes feeds it: `receive` throws what the session throws, the connection stays open unless the session
  -- throws or asks to disconnect, and then the buffer is ready again, keeping exactly what the queue has
  -- unread.
  pub receive-arrive :
      (fuel : ℕ) (b : ServerBuffer) (x : X) (unread chunk : Bytes)
      → IsReady b unread
      → 1 ≤ length chunk
      → length chunk ≤ b.space_size
      → length (unread ++ chunk) < fuel
      → Kept (arrive t x unread chunk) (receive t fuel false (length chunk) (fill_space chunk b, x))
  unfolding receive arrive
  receive-arrive fuel b x unread chunk ready some fits enough =
      let arrived = fill_space-Arrived b unread chunk ready some fits in
      let filled = fill_space chunk b in
      let size = length chunk in
      let none : (size == 0) ≡ false = ground (arith, some) in
      let loop : M (ServerBuffer × X) Bool = (do
        reaction ← receive_loop t fuel
        after_loop t filled.kept_start reaction) in
      let eq : receive t fuel false size (filled, x) ≡ loop (count_in size filled, x) =
        if_false _ _ _ none in
      subst (λ (o : Outcome (ServerBuffer × X) Bool). Kept (arrive t x unread chunk) o) (sym eq)
        (subst (λ (l : Left X). Kept l (loop (count_in size filled, x)))
          (take_messages_fuel t fuel (suc (length (unread ++ chunk))) x (unread ++ chunk) takes
            enough (omega arith))
          (loop-Kept fuel filled.kept_start (count_in size filled) x (unread ++ chunk) arrived
            enough))
