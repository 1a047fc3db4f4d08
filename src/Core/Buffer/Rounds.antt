-- ===== src/Core/Buffer/Rounds.antt =====
-- The rounds of the loop that appends to a streaming buffer.
use bomba.Base.{
  ℕ, zero, suc, ◌+◌, ◌^◌, leb, false, ◌≤◌, ◌<◌, [], ◌∷◌, ◌++◌, Bytes, length, length-append,
  length-take, length-drop, take, drop, take_all, drop_all, take-append-drop, ltb, ◌==◌, ◌≡◌, refl,
  sym, ap, ◌∙◌, arith, append_assoc, append-nil, ltb→lt, Bool-cases, inl, inr,
}
use mathlib.Core.Path.{subst}
use bomba.Base.Outcome.{ok}
use bomba.Core.Buffer.{Buffer, Streaming, copy, amount, append_loop, flush, streaming_full}

-- The block is what came since the last flush, and there is room.
abbrev pub IsStreaming : ℕ → Buffer Streaming → Type 0
IsStreaming static_size b =
    (length b.block + b.space ≡ static_size)
    × (1 ≤ b.space)
    × (b.size ≡ b.own.size_at_last_flush + length b.block)

-- All that came.
abbrev pub text_of : Buffer Streaming → Bytes
text_of b = b.own.sent ++ b.block

empty_block : (b : Bytes) → length b ≡ 0 → b ≡ []
empty_block [] h = refl
empty_block (x ∷ xs) h = absurd (omega (arith, h))

pub flush-text :
    (b : Buffer Streaming)
    → b.size ≡ b.own.size_at_last_flush + length b.block
    → (flush b).own.sent ≡ text_of b
unfolding flush
flush-text b h = elim (Bool-cases (ltb b.own.size_at_last_flush b.size)) [
  | inl more ↦ rw more (
      ap (λ (n : ℕ). b.own.sent ++ take n b.block) {y = length b.block} (omega arith)
      ∙ ap (λ (l : Bytes). b.own.sent ++ l) (take_all b.block))
  | inr nothing ↦ rw nothing (
      sym (
        ap (λ (l : Bytes). b.own.sent ++ l) (empty_block b.block (ground (arith, nothing, h)))
        ∙ append-nil b.own.sent))
]

flush-size : (b : Buffer Streaming) → (flush b).size ≡ b.size
unfolding flush
flush-size b = elim (Bool-cases (ltb b.own.size_at_last_flush b.size)) [
  | inl more ↦ rw more refl
  | inr nothing ↦ rw nothing refl
]

-- One round where the text ends in front of the end of the buffer, and one that fills it.
fits-IsStreaming :
    (static_size : ℕ) (added : Bytes) (b : Buffer Streaming)
    → IsStreaming static_size b
    → length added < b.space
    → IsStreaming static_size (copy (length added) added b)
      × ((copy (length added) added b).size ≡ b.size + length added)
      × (text_of (copy (length added) added b) ≡ text_of b ++ added)
unfolding copy
fits-IsStreaming static_size added b h fits =
    let all = take_all added in
    let longer = length-append b.block (take (length added) added) in
    let exact = ap (λ (l : Bytes). length l) all in
    (
      (omega (arith, h.0, longer, exact), omega arith, omega (arith, h.2, longer, exact)),
      refl,
      ap (λ (l : Bytes). b.own.sent ++ (b.block ++ l)) all
          ∙ sym (append_assoc b.own.sent b.block added),
    )

fills-IsStreaming :
    (static_size : ℕ) (added : Bytes) (b : Buffer Streaming)
    → 1 ≤ static_size
    → IsStreaming static_size b
    → b.space ≤ length added
    → IsStreaming static_size (streaming_full static_size (copy b.space added b)).1
      × ((streaming_full static_size (copy b.space added b)).1.size ≡ b.size + b.space)
      × (text_of (streaming_full static_size (copy b.space added b)).1 ++ drop b.space added
          ≡ text_of b ++ added)
unfolding copy streaming_full
fills-IsStreaming static_size added b room h fills =
    let copied = copy b.space added b in
    let whole : (flush copied).own.sent ≡ b.own.sent ++ (b.block ++ take b.space added) =
      flush-text copied (
        omega
          (arith, h.2, length-append b.block (take b.space added), length-take b.space added)) in
    (
      (omega arith, room, omega arith),
      flush-size copied,
      ap (λ (l : Bytes). (l ++ []) ++ drop b.space added) whole
          ∙ ap (λ (l : Bytes). l ++ drop b.space added)
              (append-nil (b.own.sent ++ (b.block ++ take b.space added)))
          ∙ append_assoc b.own.sent (b.block ++ take b.space added) (drop b.space added)
          ∙ ap (λ (l : Bytes). b.own.sent ++ l)
              (append_assoc b.block (take b.space added) (drop b.space added))
          ∙ ap (λ (l : Bytes). b.own.sent ++ (b.block ++ l)) (take-append-drop b.space added)
          ∙ sym (append_assoc b.own.sent b.block added),
    )

-- The rounds of the loop.
append_loop-fits :
    (static_size fuel x : ℕ) (xs : Bytes) (b : Buffer Streaming)
    → length (x ∷ xs) < b.space
    → b.size + length (x ∷ xs) < 2 ^ 31
    → append_loop (streaming_full static_size) (suc fuel) (x ∷ xs) b
      ≡ ok tt (copy (length (x ∷ xs)) (x ∷ xs) b)
unfolding append_loop copy amount
append_loop-fits static_size fuel x xs b fits small = ground (arith, fits, small, drop_all xs)

amount-fills :
    (added : Bytes) (b : Buffer Streaming) → b.space ≤ length added → amount added b ≡ b.space
unfolding amount
amount-fills added b fills = ground (arith, fills)

no_space : (n : ℕ) (added : Bytes) (b : Buffer Streaming) → b.space ≤ n → (copy n added b).space ≡ 0
unfolding copy
no_space n added b h = omega (arith, h)

small_copy :
    (n : ℕ) (added : Bytes) (b : Buffer Streaming)
    → n ≤ length added
    → b.size + length added < 2 ^ 31
    → leb (2 ^ 31) (copy n added b).size ≡ false
unfolding copy
small_copy n added b part small = ground (arith, part, small)

filled :
    (static_size fuel x : ℕ) (xs : Bytes) (b : Buffer Streaming)
    → (copy (amount (x ∷ xs) b) (x ∷ xs) b).space ≡ 0
    → leb (2 ^ 31) (copy (amount (x ∷ xs) b) (x ∷ xs) b).size ≡ false
    → append_loop (streaming_full static_size) (suc fuel) (x ∷ xs) b
      ≡ append_loop
          (streaming_full static_size)
          fuel
          (drop (amount (x ∷ xs) b) (x ∷ xs))
          (streaming_full static_size (copy (amount (x ∷ xs) b) (x ∷ xs) b)).1
unfolding append_loop streaming_full
filled static_size fuel x xs b h small = rw (append_loop, small, ap (λ (n : ℕ). n == 0) h) refl

append_loop-round :
    (static_size fuel x n : ℕ) (xs : Bytes) (b : Buffer Streaming)
    → amount (x ∷ xs) b ≡ n
    → (copy n (x ∷ xs) b).space ≡ 0
    → leb (2 ^ 31) (copy n (x ∷ xs) b).size ≡ false
    → append_loop (streaming_full static_size) (suc fuel) (x ∷ xs) b
      ≡ append_loop
          (streaming_full static_size)
          fuel
          (drop n (x ∷ xs))
          (streaming_full static_size (copy n (x ∷ xs) b)).1
unfolding append_loop
append_loop-round static_size fuel x n xs b e h small =
    subst
      (λ (m : ℕ).
        (copy m (x ∷ xs) b).space ≡ 0
        → leb (2 ^ 31) (copy m (x ∷ xs) b).size ≡ false
        → append_loop (streaming_full static_size) (suc fuel) (x ∷ xs) b
          ≡ append_loop (streaming_full static_size) fuel (drop m (x ∷ xs))
              (streaming_full static_size (copy m (x ∷ xs) b)).1)
      e (filled static_size fuel x xs b) h small

append_loop-fills :
    (static_size fuel x : ℕ) (xs : Bytes) (b : Buffer Streaming)
    → b.space ≤ length (x ∷ xs)
    → b.size + length (x ∷ xs) < 2 ^ 31
    → append_loop (streaming_full static_size) (suc fuel) (x ∷ xs) b
      ≡ append_loop
          (streaming_full static_size)
          fuel
          (drop b.space (x ∷ xs))
          (streaming_full static_size (copy b.space (x ∷ xs) b)).1
append_loop-fills static_size fuel x xs b fills small =
    append_loop-round static_size fuel x b.space xs b (amount-fills (x ∷ xs) b fills)
      (no_space b.space (x ∷ xs) b (omega arith)) (small_copy b.space (x ∷ xs) b fills small)

pub append_loop-text :
    (static_size fuel : ℕ) (added : Bytes) (b : Buffer Streaming)
    → 1 ≤ static_size
    → IsStreaming static_size b
    → length added ≤ fuel
    → b.size + length added < 2 ^ 31
    → (c : Buffer Streaming) × (append_loop (streaming_full static_size) fuel added b ≡ ok tt c)
      × IsStreaming static_size c
      × (c.size ≡ b.size + length added)
      × (text_of c ≡ text_of b ++ added)
unfolding append_loop
append_loop-text static_size fuel [] b room h enough small =
    (b, refl, h, omega arith, sym (append-nil (text_of b)))
append_loop-text static_size zero (x ∷ xs) b room h enough small = absurd (omega (arith, enough))
append_loop-text static_size (suc fuel) (x ∷ xs) b room h enough small =
    elim (Bool-cases (ltb (length (x ∷ xs)) b.space)) [
      | inl fits ↦
          let (kept, size, text) = fits-IsStreaming static_size (x ∷ xs) b h (ltb→lt _ _ fits) in
          (
            copy (length (x ∷ xs)) (x ∷ xs) b,
            append_loop-fits static_size fuel x xs b (ltb→lt _ _ fits) small,
            kept,
            size,
            text,
          )
      | inr fills ↦
          let full : b.space ≤ length (x ∷ xs) = ground (arith, fills) in
          let (kept, size, text) = fills-IsStreaming static_size (x ∷ xs) b room h full in
          let (c, run, good, longer, all) =
            append_loop-text static_size fuel (drop b.space (x ∷ xs))
              (streaming_full static_size (copy b.space (x ∷ xs) b)).1 room kept
              (omega (arith, h.1, enough, length-drop b.space (x ∷ xs)))
              (omega (arith, small, size, full, length-drop b.space (x ∷ xs))) in
          (
            c,
            append_loop-fills static_size fuel x xs b full small ∙ run,
            good,
            omega (arith, longer, size, full, length-drop b.space (x ∷ xs)),
            all ∙ text,
          )
    ]
