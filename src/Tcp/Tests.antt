-- ===== src/Tcp/Tests.antt =====
-- The theorems on the TCP server's buffers and sessions at concrete inputs, and runs.
use bomba.Base.{ℕ, ◌+◌, List, [], ◌∷◌, Bytes, ◌≡◌, refl, arith}
use bomba.Base.Outcome.{ok, raise, out_of_range}
use bomba.Core.Tcp.{ServerReaction, read_on}
use bomba.Tcp.Stream.{TcpServerSession, returns, throws, Fed, TakesMessages, arrive}
use bomba.Tcp.Buffer.{ServerBuffer, new_buffer}
use bomba.Tcp.Buffer.Spaces.{IsReady}
use bomba.Tcp.Buffer.Refine.{received_outcome}
use bomba.Tcp.Connection.{
  on_received, Serves, opened, received, queue, Serves-queue, Serves-on_received,
}
use bomba.Tcp.Sessions.{Session, start_session, destroy_session, started, Reaches, none_yet, next}
use bomba.Tcp.Sessions.Indices.{AreIndexed, Destroyed, destroy_session-own, Reaches-AreIndexed}

-- A session that takes messages of two bytes, adding up the first of each.
abbrev take_two : ℕ → Bytes → Fed ℕ
take_two sum [] = record { reaction = returns read_on; parsed = 0; input = []; session = sum }
take_two sum (a ∷ []) = record {
  reaction = returns read_on;
  parsed = 0;
  input = a ∷ [];
  session = sum;
}
take_two sum (a ∷ b ∷ rest) = record {
  reaction = returns ServerReaction.ok;
  parsed = 2;
  input = a ∷ b ∷ rest;
  session = sum + a;
}

abbrev pairs : TcpServerSession ℕ
pairs = record { feed_to_responder = take_two; notify_message_was_parsed = λ sum. sum }

pairs-TakesMessages : TakesMessages pairs
pairs-TakesMessages sum [] = (refl, λ e. cc)
pairs-TakesMessages sum (a ∷ []) = (refl, λ e. cc)
pairs-TakesMessages sum (a ∷ b ∷ rest) = (refl, λ e. (omega arith, omega arith))

abbrev five : Bytes
five = 10 ∷ 0 ∷ 20 ∷ 0 ∷ 7 ∷ []

received_five :
    (c : ServerBuffer) × (on_received pairs five (new_buffer, 0)
      ≡ received_outcome (arrive pairs 0 [] five).last (c, (arrive pairs 0 [] five).session))
unfolding new_buffer queue
received_five =
    Serves-on_received pairs pairs-TakesMessages 0 five opened (omega arith) (omega arith)

arrive-five : (arrive pairs 0 [] five).session ≡ 30
unfolding arrive
arrive-five = refl

-- What that leaves of the buffer.
abbrev after_five : ServerBuffer
after_five = received_five.0

served_five : Serves pairs 0 (five ∷ []) after_five 30
unfolding new_buffer arrive
served_five = received opened five (omega arith) (omega arith) received_five.1

Serves-queue_example :
    IsReady after_five (queue pairs 0 (five ∷ [])).0 × (30 ≡ (queue pairs 0 (five ∷ [])).1)
Serves-queue_example = Serves-queue pairs pairs-TakesMessages 0 served_five

Serves-on_received_example :
    (c : ServerBuffer) × (on_received pairs (3 ∷ []) (after_five, 30)
      ≡ received_outcome
          (arrive pairs (queue pairs 0 (five ∷ [])).1 (queue pairs 0 (five ∷ [])).0 (3 ∷ [])).last
          (
            c,
            (arrive pairs
                (queue pairs 0 (five ∷ [])).1
                (queue pairs 0 (five ∷ [])).0
                (3 ∷ [])).session,
          ))
Serves-on_received_example =
    Serves-on_received pairs pairs-TakesMessages 0 (3 ∷ []) served_five (omega arith)
      (Serves-queue pairs pairs-TakesMessages 0 served_five).0.room

-- A session that throws, and its exception at the end of `receive`.
abbrev refuses : TcpServerSession ℕ
refuses = record {
  feed_to_responder =
      λ x input. record { reaction = throws out_of_range; parsed = 0; input = input; session = x };
  notify_message_was_parsed = λ x. x;
}

refuses-TakesMessages : TakesMessages refuses
refuses-TakesMessages x input = (refl, λ e. cc)

thrown_out :
    (c : ServerBuffer) × (on_received refuses five (new_buffer, 7) ≡ raise out_of_range (c, 7))
unfolding new_buffer queue arrive
thrown_out =
    Serves-on_received refuses refuses-TakesMessages 7 five opened (omega arith) (omega arith)

abbrev three : List (Session ℕ)
three =
    record { connection = 4; index = 0 }
    ∷ record { connection = 5; index = 1 }
    ∷ record { connection = 6; index = 2 }
    ∷ []

destroy_session-own_example : Destroyed three (record { connection = 4; index = 0 })
destroy_session-own_example =
    destroy_session-own three 0 (record { connection = 4; index = 0 }) (refl, (refl, (refl, tt)))
      refl

three-Reaches : Reaches three
unfolding start_session
three-Reaches = next (next (next none_yet (started [] 4)) (started _ 5)) (started _ 6)

Reaches-AreIndexed_example : AreIndexed 0 three
Reaches-AreIndexed_example = Reaches-AreIndexed three-Reaches

-- The last session takes the place of the first.
destroy_first :
    destroy_session 0 three
    ≡ ok tt (record { connection = 6; index = 0 } ∷ record { connection = 5; index = 1 } ∷ [])
unfolding destroy_session
destroy_first = refl
