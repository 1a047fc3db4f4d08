-- ===== src/Tcp/Connection.antt =====
-- TcpServer::Session of bomba_tcp_server.hpp: a connection from its start, through every chunk that
-- the socket delivers into the space it was given.
use bomba.Base.{
  ℕ, suc, ◌≤◌, Bool, true, false, List, [], ◌∷◌, Bytes, length, length-append, replicate,
  length-replicate, ◌≡◌, refl, sym, ◌∙◌, arith,
}
use mathlib.Core.Path.{subst}
use bomba.Base.Outcome.{ok, M}
use bomba.Tcp.Stream.{TcpServerSession, FeedResult, returns, throws, TakesMessages, arrive}
use bomba.Tcp.Buffer.{ServerBuffer, memory, response_buffer_size, new_buffer, fill_space, receive}
use bomba.Tcp.Buffer.Spaces.{IsReady}
use bomba.Tcp.Buffer.Refine.{Kept, received_outcome, stays_open, receive-arrive}

-- The socket's completion: it has written the chunk into the space, and `receive` goes over it with
-- fuel for everything that it can hold.
unfoldable pub on_received : {X : Type 0} → TcpServerSession X → Bytes → M (ServerBuffer × X) Bool
unfolding fill_space receive
on_received t chunk (b, x) =
    receive t (suc (length (memory b))) false (length chunk) (fill_space chunk b, x)

-- The connections that can come about: the socket never writes more than the space that it was given.
pub data Serves {X : Type 0} (t : TcpServerSession X) (x₀ : X)
    : List Bytes → ServerBuffer → X → Type 0 where
  opened : Serves t x₀ [] new_buffer x₀
  received :
      {chunks : List Bytes} {b c : ServerBuffer} {x y : X}
      → Serves t x₀ chunks b x
      → (chunk : Bytes) → 1 ≤ length chunk
      → length chunk ≤ b.space_size
      → on_received t chunk (b, x) ≡ ok true (c, y)
      → Serves t x₀ (chunk ∷ chunks) c y

-- What a queue has after the chunks, the last one first.
unfoldable pub queue : {X : Type 0} → TcpServerSession X → X → List Bytes → Bytes × X
unfolding arrive
queue t x₀ [] = ([], x₀)
queue t x₀ (chunk ∷ chunks) =
    let (unread, x) = queue t x₀ chunks in
    let left = arrive t x unread chunk in (left.unread, left.session)

new_buffer-IsReady : IsReady new_buffer []
unfolding new_buffer memory
new_buffer-IsReady = record {
  kept = record {
    before = [];
    after = replicate response_buffer_size 0;
    shape = refl;
    starts = refl;
    ends = refl;
  };
  array_size = length-replicate {A = ℕ} response_buffer_size 0;
  behind = refl;
  room = omega arith;
  inside = omega (arith, length-replicate {A = ℕ} response_buffer_size 0);
}

-- A reception that completed, and after which the connection stays open.
received_open :
    {X : Type 0} (result : FeedResult) (b c : ServerBuffer) (x y : X)
    → received_outcome {S = ServerBuffer × X} result (b, x) ≡ ok true (c, y)
    → (b ≡ c) × (x ≡ y) × (stays_open result ≡ true)
received_open (returns reaction) b c x y e = (cc, cc, cc)
received_open (throws e) b c x y h = absurd (cc)

module _ {X : Type 0} (t : TcpServerSession X) (takes : TakesMessages t) (x₀ : X) where
  on_received-Kept :
      (b : ServerBuffer) (x : X) (unread chunk : Bytes)
      → IsReady b unread
      → 1 ≤ length chunk
      → length chunk ≤ b.space_size
      → Kept (arrive t x unread chunk) (on_received t chunk (b, x))
  unfolding on_received
  on_received-Kept b x unread chunk ready some fits =
      receive-arrive t takes (suc (length (memory b))) b x unread chunk ready some fits (
        omega
          (arith, length-append unread chunk, ready.kept.ends, ready.behind, ready.inside, fits))

  -- A connection whose session takes messages of a byte at least from its input keeps exactly the
  -- bytes that a queue would have unread after the same chunks, its session is in the state that the
  -- queue feeds it to, and the buffer has room of at least a byte behind those bytes, inside its memory.
  pub Serves-queue :
      {chunks : List Bytes} {b : ServerBuffer} {x : X}
      → Serves t x₀ chunks b x
      → IsReady b (queue t x₀ chunks).0 × (x ≡ (queue t x₀ chunks).1)
  unfolding queue
  Serves-queue opened = (new_buffer-IsReady, refl)
  Serves-queue (received {chunks} {b} {c} {x} {y} before chunk some fits run) =
      let (ready, same) = Serves-queue before in
      let (unread, z) = queue t x₀ chunks in
      let left = arrive t z unread chunk in
      let kept : Kept left (on_received t chunk (b, x)) =
        subst (λ (w : X). Kept (arrive t w unread chunk) (on_received t chunk (b, x))) same
          (on_received-Kept b x unread chunk ready some fits) in
      let eq : received_outcome {S = ServerBuffer × X} left.last (kept.buffer, left.session)
          ≡ ok true (c, y) =
        sym kept.run ∙ run in
      let (is_c, is_y, opened_still) = received_open left.last kept.buffer c left.session y eq in
      (subst (λ (d : ServerBuffer). IsReady d left.unread) is_c (kept.ready opened_still), sym is_y)

  -- On a connection whose session takes messages of a byte at least from its input, and leaves that as
  -- long as it was, a chunk that fits the space is received: no index is out of place, the loop comes to
  -- its end, the session is fed as the queue feeds it, and the connection stays open unless the last
  -- reaction of the session is to disconnect, or the session throws: then `receive` throws the same
  -- exception.
  pub Serves-on_received :
      {chunks : List Bytes} {b : ServerBuffer} {x : X} (chunk : Bytes)
      → Serves t x₀ chunks b x
      → 1 ≤ length chunk
      → length chunk ≤ b.space_size
      → (c : ServerBuffer) × (on_received t chunk (b, x)
          ≡ received_outcome
              (arrive t (queue t x₀ chunks).1 (queue t x₀ chunks).0 chunk).last
              (c, (arrive t (queue t x₀ chunks).1 (queue t x₀ chunks).0 chunk).session))
  Serves-on_received {chunks} {b} {x} chunk serves some fits =
      let (ready, same) = Serves-queue serves in
      let unread = (queue t x₀ chunks).0 in
      let kept : Kept (arrive t (queue t x₀ chunks).1 unread chunk) (on_received t chunk (b, x)) =
        subst (λ (w : X). Kept (arrive t w unread chunk) (on_received t chunk (b, x))) same
          (on_received-Kept b x unread chunk ready some fits) in
      (kept.buffer, kept.run)
