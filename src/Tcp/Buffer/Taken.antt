-- ===== src/Tcp/Buffer/Taken.antt =====
-- The loop of `receive` takes the messages that the session finds in the unread bytes.
use bomba.Base.{
  ℕ, zero, suc, ◌<◌, true, false, Bytes, length, length-drop, drop, leb, if◌then◌else◌, if_true,
  if_false, Bool-cases, inl, inr, ◌≡◌, ◌≢◌, refl, sym, ap, ◌∙◌, arith,
}
use mathlib.Core.Path.{subst}
use bomba.Base.Outcome.{M, Outcome, ok, bind, >>=-ok}
use bomba.Core.Tcp.{ServerReaction, read_on, wrong_reply, disconnect}
use bomba.Tcp.Stream.{
  TcpServerSession, FeedResult, returns, throws, TakesMessages, Left, take_messages,
}
use bomba.Tcp.Buffer.{ServerBuffer, read_buffer, after_read, fed_outcome, go_on, receive_loop}
use bomba.Tcp.Buffer.Memory.{Holds-input}
use bomba.Tcp.Buffer.Reads.{
  Unread, SameShape, SameShape-trans, reaction-cases, not_less, after_read-ok, after_read-other,
}

-- The test at the end of a round.
is_done :
    (c : ServerBuffer) (rest : Bytes)
    → Unread c rest
    → leb (length rest) 0 ≡ true
    → leb c.kept_end c.kept_start ≡ true
is_done c rest h e = ground (arith, h.ends, e)

is_not_done :
    (c : ServerBuffer) (rest : Bytes)
    → Unread c rest
    → leb (length rest) 0 ≡ false
    → leb c.kept_end c.kept_start ≡ false
is_not_done c rest h e = ground (arith, h.ends, e)

module _ {X : Type 0} (t : TcpServerSession X) where
  read_buffer-Unread :
      (b : ServerBuffer) (x : X) (unread : Bytes)
      → Unread b unread
      → read_buffer t (b, x)
        ≡ fed_outcome
            (t.feed_to_responder x unread).reaction
            (after_read (t.feed_to_responder x unread) b, (t.feed_to_responder x unread).session)
  unfolding read_buffer
  read_buffer-Unread b x unread h =
      let result : Bytes → Outcome (ServerBuffer × X) ServerReaction = λ input.
        fed_outcome (t.feed_to_responder x input).reaction
          (after_read (t.feed_to_responder x input) b, (t.feed_to_responder x input).session) in
      rw (not_less b.kept_end b.kept_start (omega (arith, h.ends))) (ap result (Holds-input h))

  -- One round of both loops where the session takes a message, and one where it does not.
  pub take_messages-ok :
      (fuel : ℕ) (x : X) (unread : Bytes)
      → (t.feed_to_responder x unread).reaction ≡ returns ServerReaction.ok
      → let fed = t.feed_to_responder x unread in
        let rest = drop fed.parsed fed.input in
        let notified = t.notify_message_was_parsed fed.session in
        take_messages t (suc fuel) x unread ≡ (
          if leb (length rest) 0
          then record { last = returns ServerReaction.ok; unread = rest; session = notified }
          else take_messages t fuel notified rest)
  unfolding take_messages
  take_messages-ok fuel x unread e = ground (arith, e)

  pub take_messages-other :
      (fuel : ℕ) (x : X) (unread : Bytes)
      → (t.feed_to_responder x unread).reaction ≢ returns ServerReaction.ok
      → let fed = t.feed_to_responder x unread in
        take_messages t (suc fuel) x unread
        ≡ record { last = fed.reaction; unread = fed.input; session = fed.session }
  unfolding take_messages
  take_messages-other fuel x unread n = ground (arith, n)

  receive_loop-ok :
      (fuel : ℕ) (b : ServerBuffer) (x : X) (unread : Bytes)
      → Unread b unread
      → (t.feed_to_responder x unread).reaction ≡ returns ServerReaction.ok
      → let fed = t.feed_to_responder x unread in
        let c = after_read fed b in
        let notified = t.notify_message_was_parsed fed.session in
        receive_loop t (suc fuel) (b, x) ≡ (
          if leb c.kept_end c.kept_start
          then ok ServerReaction.ok (c, notified)
          else receive_loop t fuel (c, notified))
  unfolding receive_loop go_on
  receive_loop-ok fuel b x unread h e =
      let fed = t.feed_to_responder x unread in
      >>=-ok (read_buffer t) (go_on t (receive_loop t fuel)) {s = (b, x)} (
        read_buffer-Unread b x unread h
        ∙ ap (λ (r : FeedResult). fed_outcome r (after_read fed b, fed.session)) e)
      ∙ ground (arith, e)

  go_on-other :
      (again : M (ServerBuffer × X) ServerReaction) (result : FeedResult) (s : ServerBuffer × X)
      → result ≢ returns ServerReaction.ok
      → bind (fed_outcome result s) (go_on t again) ≡ fed_outcome result s
  unfolding go_on
  go_on-other again (returns ServerReaction.ok) s n = absurd (n refl)
  go_on-other again (returns read_on) s n = refl
  go_on-other again (returns wrong_reply) s n = refl
  go_on-other again (returns disconnect) s n = refl
  go_on-other again (throws e) s n = refl

  receive_loop-other :
      (fuel : ℕ) (b : ServerBuffer) (x : X) (unread : Bytes)
      → Unread b unread
      → (t.feed_to_responder x unread).reaction ≢ returns ServerReaction.ok
      → let fed = t.feed_to_responder x unread in
        receive_loop t (suc fuel) (b, x) ≡ fed_outcome fed.reaction (after_read fed b, fed.session)
  unfolding receive_loop
  receive_loop-other fuel b x unread h n =
      let fed = t.feed_to_responder x unread in
      ap (λ (o : Outcome (ServerBuffer × X) ServerReaction). bind o (go_on t (receive_loop t fuel)))
        (read_buffer-Unread b x unread h)
      ∙ go_on-other (receive_loop t fuel) fed.reaction (after_read fed b, fed.session) n

  -- The loop's outcome, where it leaves what the queue has left.
  abbrev pub Agrees : ServerBuffer → Left X → Outcome (ServerBuffer × X) ServerReaction → Type 0
  Agrees b left outcome =
      (c : ServerBuffer) × (outcome ≡ fed_outcome left.last (c, left.session))
      × SameShape b c
      × Unread c left.unread

  Agrees-eq :
      {b : ServerBuffer} {left left' : Left X}
      {outcome outcome' : Outcome (ServerBuffer × X) ServerReaction}
      → left' ≡ left
      → outcome' ≡ outcome
      → Agrees b left outcome
      → Agrees b left' outcome'
  Agrees-eq {b} {left} {left'} {outcome} {outcome'} e f h =
      subst (λ (l : Left X). Agrees b l outcome') (sym e)
        (subst (λ (o : Outcome (ServerBuffer × X) ServerReaction). Agrees b left o) (sym f) h)

  -- The loop of `receive` leaves what taking the messages from the queue leaves.
  pub receive_loop-take_messages :
      (fuel : ℕ) (b : ServerBuffer) (x : X) (unread : Bytes)
      → TakesMessages t
      → Unread b unread
      → length unread < fuel
      → Agrees b (take_messages t fuel x unread) (receive_loop t fuel (b, x))
  receive_loop-take_messages zero b x unread takes h enough = absurd (omega (arith, enough))
  receive_loop-take_messages (suc fuel) b x unread takes h enough =
      let fed = t.feed_to_responder x unread in
      let c = after_read fed b in
      let (same, taken) = takes x unread in
      elim (reaction-cases fed.reaction) [
        | inr other ↦
            let (shape, kept, _) = after_read-other fed b unread other same h in
            Agrees-eq (take_messages-other fuel x unread other)
              (receive_loop-other fuel b x unread h other) (c, refl, shape, kept)
        | inl e ↦
            let rest = drop fed.parsed fed.input in
            let notified = t.notify_message_was_parsed fed.session in
            let (shape, kept, _) = after_read-ok fed b unread e same (taken e).0 (taken e).1 h in
            let shorter = length-drop fed.parsed fed.input in
            elim (Bool-cases (leb (length rest) 0)) [
              | inl done ↦
                  Agrees-eq (take_messages-ok fuel x unread e ∙ if_true _ _ _ done)
                    (receive_loop-ok fuel b x unread h e ∙ if_true _ _ _ (is_done c rest kept done))
                    (c, refl, shape, kept)
              | inr more ↦
                  let (d, run, shape', left) =
                    receive_loop-take_messages fuel c notified rest takes kept
                      (omega (arith, enough, same, shorter, (taken e).0, (taken e).1)) in
                  Agrees-eq (take_messages-ok fuel x unread e ∙ if_false _ _ _ more)
                    (receive_loop-ok fuel b x unread h e
                      ∙ if_false _ _ _ (is_not_done c rest kept more))
                    (d, run, SameShape-trans shape shape', left)
            ]
      ]
