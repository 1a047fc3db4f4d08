-- ===== src/Tcp/Buffer/Spaces.antt =====
-- A buffer that can be written to, and the ways to make it one.
use bomba.Base.{
  ℕ, ◌+◌, ◌-◌, ◌*◌, ◌≤◌, true, false, [], ◌∷◌, Bytes, length, take, drop, ◌≡◌, refl, sym, ap, ◌∙◌,
  arith,
}
use mathlib.Core.Path.{subst}
use bomba.Tcp.Buffer.{
  ServerBuffer, memory, splice, resize, is_empty, response_buffer_size, space_in_vector,
  move_to_vector, move_to_start,
}
use bomba.Tcp.Buffer.Memory.{
  Holds, Holds-length, Holds-input, Holds-copy, Holds-grow, Holds-all, length-splice, length-resize,
}
use bomba.Tcp.Buffer.Reads.{Unread}

-- The buffer can be written to: the bytes are kept, and behind them there is room in the memory.
pub record IsReady (b : ServerBuffer) (unread : Bytes) : Type 0 where
  pub kept : Unread b unread
  pub array_size : length b.response_array ≡ response_buffer_size
  pub behind : b.space_start ≡ b.kept_end
  pub room : 1 ≤ b.space_size
  pub inside : b.space_start + b.space_size ≤ length (memory b)

pub memory-array :
    (b : ServerBuffer) → is_empty b.long_leftovers ≡ true → memory b ≡ b.response_array
unfolding memory
memory-array b e = rw (e, memory)

pub memory-vector :
    (b : ServerBuffer) → is_empty b.long_leftovers ≡ false → memory b ≡ b.long_leftovers
unfolding memory
memory-vector b e = rw (e, memory)

pub not_empty : (xs : Bytes) → 1 ≤ length xs → is_empty xs ≡ false
not_empty [] h = absurd (omega (arith, h))
not_empty (x ∷ xs) h = refl

-- The same, of the memory that it is.
pub IsReady-array :
    (b : ServerBuffer) (unread : Bytes)
    → is_empty b.long_leftovers ≡ true
    → Holds b.response_array b.kept_start b.kept_end unread
    → length b.response_array ≡ response_buffer_size
    → b.space_start ≡ b.kept_end
    → 1 ≤ b.space_size
    → b.space_start + b.space_size ≤ response_buffer_size
    → IsReady b unread
IsReady-array b unread e h size behind room inside =
    let memory_eq = memory-array b e in
    record {
      kept = subst (λ (l : Bytes). Holds l b.kept_start b.kept_end unread) (sym memory_eq) h;
      array_size = size;
      behind = behind;
      room = room;
      inside = omega (arith, inside, size, ap (λ (l : Bytes). length l) memory_eq);
    }

IsReady-vector :
    (b : ServerBuffer) (unread : Bytes)
    → Holds b.long_leftovers b.kept_start b.kept_end unread
    → length b.response_array ≡ response_buffer_size
    → b.space_start ≡ b.kept_end
    → 1 ≤ b.space_size
    → b.space_start + b.space_size ≤ length b.long_leftovers
    → IsReady b unread
IsReady-vector b unread h size behind room inside =
    let memory_eq = memory-vector b (not_empty b.long_leftovers (omega (arith, room, inside))) in
    record {
      kept = subst (λ (l : Bytes). Holds l b.kept_start b.kept_end unread) (sym memory_eq) h;
      array_size = size;
      behind = behind;
      room = room;
      inside = omega (arith, inside, ap (λ (l : Bytes). length l) memory_eq);
    }

pub space_in_vector-IsReady :
    (b : ServerBuffer) (unread : Bytes)
    → Holds b.long_leftovers b.kept_start b.kept_end unread
    → length b.response_array ≡ response_buffer_size
    → length b.long_leftovers ≡ b.kept_end
    → IsReady (space_in_vector b) unread
unfolding space_in_vector
space_in_vector-IsReady b unread h size full =
    IsReady-vector (space_in_vector b) unread
      (Holds-grow (length b.long_leftovers + response_buffer_size)
        (subst (λ (n : ℕ). Holds b.long_leftovers b.kept_start n unread) (sym full) h)
        (omega arith))
      size refl (omega arith)
      (omega
        (arith, length-resize (length b.long_leftovers + response_buffer_size) b.long_leftovers))

pub move_to_vector-IsReady :
    (b : ServerBuffer) (unread : Bytes)
    → Holds b.response_array b.kept_start b.kept_end unread
    → length b.response_array ≡ response_buffer_size
    → b.kept_start ≡ 0
    → b.kept_end ≡ response_buffer_size
    → IsReady (move_to_vector b) unread
unfolding move_to_vector
move_to_vector-IsReady b unread h size start end =
    let whole : b.response_array ≡ unread =
      Holds-all (subst (λ (n : ℕ). Holds b.response_array n b.kept_end unread) start h)
        (omega (arith, size, end)) in
    let vector = resize (2 * response_buffer_size) [] in
    let long =
      length-splice b.response_array vector
        (omega (arith, size, length-resize (2 * response_buffer_size) [])) in
    IsReady-vector (move_to_vector b) unread
      (subst (λ (n : ℕ). Holds (splice 0 b.response_array vector) n b.kept_end unread) (sym start)
        (Holds-copy b.response_array vector unread b.kept_end whole (omega (arith, h.ends, start))))
      size refl (omega (arith, end))
      (omega (arith, end, long, length-resize (2 * response_buffer_size) []))

pub move_to_start-IsReady :
    (b : ServerBuffer) (unread : Bytes)
    → is_empty b.long_leftovers ≡ true
    → Holds b.response_array b.kept_start b.kept_end unread
    → length b.response_array ≡ response_buffer_size
    → 1 ≤ b.kept_start
    → IsReady (move_to_start b) unread
unfolding move_to_start
move_to_start-IsReady b unread e h size some =
    let copied = take (b.kept_end - b.kept_start) (drop b.kept_start b.response_array) in
    let same : copied ≡ unread = Holds-input h in
    let count : length copied ≡ length unread = ap (λ (l : Bytes). length l) same in
    IsReady-array (move_to_start b) unread e
      (Holds-copy copied b.response_array unread (b.kept_end - b.kept_start) same
        (omega (arith, h.ends)))
      (length-splice copied b.response_array (omega (arith, count, size, h.ends, Holds-length h))
        ∙ size)
      refl (omega (arith, some)) (omega (arith, size, h.ends, Holds-length h))
