-- ===== src/Core/Buffer/HandedOn.antt =====
-- What a streaming buffer hands on.
use bomba.Base.{
  ℕ, ◌+◌, ◌^◌, ◌≤◌, ◌<◌, List, [], ◌∷◌, ◌++◌, Bytes, length, length-append, take_all, ◌≡◌, refl,
  sym, ap, ◌∙◌, arith, append_assoc, append-nil,
}
use bomba.Base.Int.{pos}
use bomba.Base.Outcome.{ok, ◌>>◌, return, M, >>=-ok}
use bomba.Core.Flags.{int_32}
use bomba.Core.Integer.{narrow-InRange}
use bomba.Core.Buffer.{Buffer, Streaming, append, append_loop, flush, streaming_full, new_streaming}
use bomba.Core.Buffer.Rounds.{IsStreaming, text_of, flush-text, append_loop-text}

-- A list of texts appended to a buffer one after the other.
abbrev pub append_each : ℕ → List Bytes → M (Buffer Streaming) (Unit {0})
append_each static_size [] = return tt
append_each static_size (text ∷ texts) =
    append (streaming_full static_size) text >> append_each static_size texts

abbrev pub joined : List Bytes → Bytes
joined [] = []
joined (text ∷ texts) = text ++ joined texts

-- A text whose length an int can say is appended to its end.
append-loop :
    (static_size : ℕ) (text : Bytes) (b : Buffer Streaming)
    → length text < 2 ^ 31
    → append (streaming_full static_size) text b
      ≡ append_loop (streaming_full static_size) (length text) text b
unfolding append
append-loop static_size text b small =
    rw (append, narrow-InRange int_32 (pos (length text)) (omega (arith, small)), take_all text)
      refl

append_each-text :
    (static_size : ℕ) (texts : List Bytes) (b : Buffer Streaming)
    → 1 ≤ static_size
    → IsStreaming static_size b
    → b.size + length (joined texts) < 2 ^ 31
    → (c : Buffer Streaming) × (append_each static_size texts b ≡ ok tt c)
      × IsStreaming static_size c
      × (text_of c ≡ text_of b ++ joined texts)
append_each-text static_size [] b room h small = (b, refl, h, sym (append-nil (text_of b)))
append_each-text static_size (text ∷ texts) b room h small =
    let longer = length-append text (joined texts) in
    let (c, run, good, size, whole) =
      append_loop-text static_size (length text) text b room h (omega arith)
        (omega (arith, small, longer)) in
    let (d, runs, kept, all) =
      append_each-text static_size texts c room good (omega (arith, small, longer, size)) in
    (
      d,
      >>=-ok (append (streaming_full static_size) text) _
            (append-loop static_size text b (omega (arith, small, longer)) ∙ run)
          ∙ runs,
      kept,
      all
          ∙ ap (λ (l : Bytes). l ++ joined texts) whole
          ∙ append_assoc (text_of b) text (joined texts),
    )

-- Texts of fewer than 2^31 characters together that are appended to a new streaming buffer of one
-- character or more are all taken, and when the destructor has flushed it, the writer was given exactly
-- these texts in a row.
pub flush-append_each :
    (static_size : ℕ) (texts : List Bytes)
    → 1 ≤ static_size
    → length (joined texts) < 2 ^ 31
    → (b : Buffer Streaming) × (append_each static_size texts (new_streaming static_size) ≡ ok tt b)
      × ((flush b).own.sent ≡ joined texts)
unfolding new_streaming
flush-append_each static_size texts room small =
    let (b, run, good, all) =
      append_each-text static_size texts (new_streaming static_size) room
        (omega arith, room, omega arith) (omega (arith, small)) in
    (b, run, flush-text b good.2 ∙ all)
