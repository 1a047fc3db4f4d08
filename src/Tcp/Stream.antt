-- ===== src/Tcp/Stream.antt =====
-- What a connection's input is to a session: a queue of bytes that it takes messages from. This is
-- the contract of TcpServerBuffer in bomba_tcp_server.hpp, without its memory.
use bomba.Base.{ℕ, zero, suc, ◌≤◌, true, false, ◌++◌, Bytes, length, drop, leb, ◌≡◌}
use bomba.Base.Outcome.{Exception}
use bomba.Core.Tcp.{ServerReaction, ok, read_on, wrong_reply, disconnect}

-- What a call of `feedToResponder` comes to.
pub data FeedResult : Type 0 where
  returns : ServerReaction → FeedResult
  throws : Exception → FeedResult

-- What `feedToResponder` returns or throws, and the input and the session that it leaves. The number of
-- bytes that are taken is not negative, and counts only where the reaction is OK.
pub record Fed (X : Type 0) : Type 0 where
  pub reaction : FeedResult
  pub parsed : ℕ
  pub input : Bytes
  pub session : X

-- ITcpServerSession. The span that it is fed is its own to change.
pub record TcpServerSession (X : Type 0) : Type 0 where
  pub feed_to_responder : X → Bytes → Fed X
  pub notify_message_was_parsed : X → X

-- A message that is taken has a byte at least and is a part of the input.
abbrev pub TakesMessages : {X : Type 0} → TcpServerSession X → Type 0
TakesMessages {X} t =
    (x : X) (input : Bytes)
    → (length (t.feed_to_responder x input).input ≡ length input)
      × ((t.feed_to_responder x input).reaction ≡ returns ok
          → (1 ≤ (t.feed_to_responder x input).parsed)
            × ((t.feed_to_responder x input).parsed ≤ length input))

-- What is left when a session has taken all the messages that it finds, or has thrown.
pub record Left (X : Type 0) : Type 0 where
  pub last : FeedResult
  pub unread : Bytes
  pub session : X

module _ {X : Type 0} (t : TcpServerSession X) where
  -- Messages are taken from the front of the queue while there are any.
  unfoldable pub take_messages : ℕ → X → Bytes → Left X
  take_messages zero x unread = record { last = returns ok; unread = unread; session = x }
  take_messages (suc fuel) x unread =
      let fed = t.feed_to_responder x unread in
      let rest = drop fed.parsed fed.input in
      let notified = t.notify_message_was_parsed fed.session in
      elim fed.reaction [
        | returns ok ↦ elim (leb (length rest) 0) [
          | true ↦ record { last = returns ok; unread = rest; session = notified }
          | false ↦ take_messages fuel notified rest
        ]
        | returns read_on ↦ record {
          last = returns read_on;
          unread = fed.input;
          session = fed.session;
        }
        | returns wrong_reply ↦ record {
          last = returns wrong_reply;
          unread = fed.input;
          session = fed.session;
        }
        | returns disconnect ↦ record {
          last = returns disconnect;
          unread = fed.input;
          session = fed.session;
        }
        | throws e ↦ record { last = throws e; unread = fed.input; session = fed.session }
      ]

  -- A chunk that arrives goes behind what is unread.
  unfoldable pub arrive : X → Bytes → Bytes → Left X
  unfolding take_messages
  arrive x unread chunk = take_messages (suc (length (unread ++ chunk))) x (unread ++ chunk)
