-- ===== src/Tcp/Buffer/Room.antt =====
-- When the messages are taken, `receive` makes room behind the unread bytes and keeps them.
use bomba.Base.{
  ℕ, ◌-◌, ◌≤◌, ◌<◌, min, true, false, not, ◌&&◌, [], Bytes, length, length-drop, take, drop, ltb,
  ◌==◌, if◌then◌else◌, Bool-cases, inl, inr, ◌≡◌, refl, sym, ap, ◌∙◌, arith,
}
use mathlib.Core.Path.{subst}
use bomba.Base.Outcome.{ok}
use bomba.Tcp.Buffer.{
  ServerBuffer, splice, is_empty, response_buffer_size, response_max_size, shorten, shorten_if_read,
  space_in_vector, move_to_vector, move_to_start, space_in_array, make_space,
}
use bomba.Tcp.Buffer.Memory.{
  Holds, Holds-length, Holds-input, Holds-copy, Holds-drop, Holds-none, length-splice,
}
use bomba.Tcp.Buffer.Reads.{Unread}
use bomba.Tcp.Buffer.Spaces.{
  IsReady, memory-array, memory-vector, not_empty, IsReady-array, space_in_vector-IsReady,
  move_to_vector-IsReady, move_to_start-IsReady,
}

-- What `receive` finds when it makes room: the bytes are in the array, or in a vector that they end.
space_in_array-IsReady :
    (b : ServerBuffer) (unread : Bytes)
    → is_empty b.long_leftovers ≡ true
    → Holds b.response_array b.kept_start b.kept_end unread
    → length b.response_array ≡ response_buffer_size
    → (c : ServerBuffer) × (space_in_array b ≡ ok tt c) × IsReady c unread
unfolding space_in_array
space_in_array-IsReady b unread e h size =
    let fits : b.kept_end ≤ response_buffer_size = omega (arith, size, Holds-length h) in
    elim (Bool-cases (b.kept_start == 0 && b.kept_end == response_buffer_size)) [
      | inl full ↦ (
        move_to_vector b,
        ground (arith, full),
        move_to_vector-IsReady b unread h size (ground (arith, full)) (ground (arith, full)),
      )
      | inr not_full ↦ elim (Bool-cases (b.kept_start == b.kept_end)) [
        | inl none ↦
            let c : ServerBuffer = record b {
              kept_start = 0;
              kept_end = 0;
              space_start = 0;
              space_size = response_max_size;
            } in
            (
              c,
              ground (arith, not_full, none),
              IsReady-array c unread e (Holds-none b.response_array h (ground (arith, none))) size
                  refl (omega arith) (omega arith),
            )
        | inr some ↦ elim (Bool-cases (ltb (response_buffer_size - b.kept_end) b.kept_start)) [
          | inl start ↦ (
            move_to_start b,
            ground (arith, not_full, some, start, h.ends),
            move_to_start-IsReady b unread e h size (ground (arith, start)),
          )
          | inr end ↦
              let c : ServerBuffer = record b {
                space_start = b.kept_end;
                space_size = min (response_buffer_size - b.kept_end) response_max_size;
              } in
              let some_left : b.kept_end < response_buffer_size =
                ground (arith, not_full, end, fits, h.ends) in
              (
                c,
                ground (arith, not_full, some, end, h.ends),
                IsReady-array c unread e h size refl (omega (arith, some_left))
                    (omega (arith, fits)),
              )
        ]
      ]
    ]

module _ (b : ServerBuffer) (unread : Bytes)
    (size : length b.response_array ≡ response_buffer_size) where
  make_space-array :
      is_empty b.long_leftovers ≡ true
      → Unread b unread
      → (c : ServerBuffer) × (make_space b ≡ ok tt c) × IsReady c unread
  unfolding make_space
  make_space-array e h =
      let (c, run, ready) =
        space_in_array-IsReady b unread e
          (subst (λ (l : Bytes). Holds l b.kept_start b.kept_end unread) (memory-array b e) h)
          size in
      (c, rw (e, make_space) run, ready)

  make_space-vector :
      is_empty b.long_leftovers ≡ false
      → Unread b unread
      → length b.long_leftovers ≡ b.kept_end
      → (c : ServerBuffer) × (make_space b ≡ ok tt c) × IsReady c unread
  unfolding make_space
  make_space-vector e h full = (
    space_in_vector b,
    rw (e, make_space),
    space_in_vector-IsReady b unread
        (subst (λ (l : Bytes). Holds l b.kept_start b.kept_end unread) (memory-vector b e) h) size
        full,
  )

shorten-IsReady :
    (b : ServerBuffer) (unread : Bytes) (size : length b.response_array ≡ response_buffer_size)
    → is_empty b.long_leftovers ≡ false
    → Unread b unread
    → length b.long_leftovers ≡ b.kept_end
    → (c : ServerBuffer) × (make_space (shorten b) ≡ ok tt c) × IsReady c unread
unfolding shorten
shorten-IsReady b unread size e h full =
    let left = length b.long_leftovers - b.kept_start in
    let held =
      subst (λ (l : Bytes). Holds l b.kept_start b.kept_end unread) (memory-vector b e) h in
    let rest = drop b.kept_start b.long_leftovers in
    let copied = take left rest in
    let size_left : length unread ≡ left = omega (arith, full, h.ends) in
    let same : copied ≡ unread =
      ap (λ (n : ℕ). take n rest) {x = left} {y = b.kept_end - b.kept_start} (omega (arith, full))
      ∙ Holds-input held in
    let count : length copied ≡ length unread = ap (λ (l : Bytes). length l) same in
    let in_vector : ServerBuffer = record b {
      long_leftovers = rest;
      kept_end = left;
      kept_start = 0;
    } in
    let in_array : ServerBuffer = record b {
      response_array = splice 0 copied b.response_array;
      kept_end = left;
      kept_start = 0;
      long_leftovers = [];
    } in
    elim (Bool-cases (ltb (length b.response_array) left)) [
      | inl long ↦
          let still =
            not_empty rest (ground (arith, long, length-drop b.kept_start b.long_leftovers)) in
          let (c, run, ready) =
            make_space-vector in_vector unread size still
              (subst (λ (l : Bytes). Holds l 0 left unread) (sym (memory-vector in_vector still))
                (Holds-drop left held size_left))
              (length-drop b.kept_start b.long_leftovers) in
          (c, rw (long, if◌then◌else◌) run, ready)
      | inr short ↦
          let (c, run, ready) =
            make_space-array in_array unread
              (length-splice copied b.response_array (ground (arith, short, count, size_left))
                ∙ size)
              refl
              (subst (λ (l : Bytes). Holds l 0 left unread) (sym (memory-array in_array refl))
                (Holds-copy copied b.response_array unread left same size_left)) in
          (c, rw (short, if◌then◌else◌) run, ready)
    ]

-- Either way of what was read before.
pub make_space-IsReady :
    (previous : ℕ) (b : ServerBuffer) (unread : Bytes)
    → length b.response_array ≡ response_buffer_size
    → (is_empty b.long_leftovers ≡ false → length b.long_leftovers ≡ b.kept_end)
    → Unread b unread
    → (c : ServerBuffer) × (make_space (shorten_if_read previous b) ≡ ok tt c) × IsReady c unread
unfolding shorten_if_read
make_space-IsReady previous b unread size full h = elim (Bool-cases (is_empty b.long_leftovers)) [
  | inl e ↦ let (c, run, ready) = make_space-array b unread size e h in (c, rw e run, ready)
  | inr e ↦ elim (Bool-cases (not (previous == b.kept_start))) [
    | inl read ↦
        let (c, run, ready) = shorten-IsReady b unread size e h (full e) in
        (c, rw (e, read) run, ready)
    | inr stayed ↦
        let (c, run, ready) = make_space-vector b unread size e h (full e) in
        (c, rw (e, stayed) run, ready)
  ]
]
