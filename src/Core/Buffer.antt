-- ===== src/Core/Buffer.antt =====
-- bomba_core.hpp, GeneralisedBuffer and the buffers derived from it. `block` is what has been copied
-- to the memory in front of the free part of the buffer, which `space` measures; as `StaticSize` is an
-- int, so is that. `_size` is an int, and its overflow is undefined behaviour.
pub mod HandedOn
pub mod Rounds
use bomba.Base.{
  ℕ, zero, suc, ◌+◌, ◌-◌, ◌*◌, ◌^◌, ◌||◌, Bool, true, false, [], ◌∷◌, ◌++◌, Bytes, length, take,
  drop, leb, ltb, ◌==◌, if◌then◌else◌,
}
use bomba.Base.Int.{pos, negsuc}
use bomba.Base.Outcome.{M, ok, undefined, diverges, return}
use bomba.Core.Flags.{int_32}
use bomba.Core.Integer.{narrow}

-- `own` holds the fields of the derived class.
pub record Buffer (X : Type 0) : Type 0 where
  pub block : Bytes
  pub space : ℕ
  pub size : ℕ
  pub own : X

-- What `memcpy` of a number of characters leaves.
unfoldable pub copy : {X : Type 0} → ℕ → Bytes → Buffer X → Buffer X
copy to_copy added b = record b {
  block = b.block ++ take to_copy added;
  space = b.space - to_copy;
  size = b.size + to_copy;
}

-- `toCopy`, where an int can say how much is left of what is added.
unfoldable pub amount : {X : Type 0} → Bytes → Buffer X → ℕ
amount added b = if leb (length added) b.space then length added else b.space

-- `buffer_full` is the virtual method: whether to go on, and the buffer then.
module _ {X : Type 0} (buffer_full : Buffer X → Bool × Buffer X) where
  -- `+=` of a character, which has to have room.
  unfoldable pub append_char : ℕ → M (Buffer X) (Unit {0})
  unfolding copy
  append_char added b =
      let copied = copy 1 (added ∷ []) b in
      if b.space == 0 || leb (2 ^ 31) copied.size
      then undefined
      else ok tt (if copied.space == 0 then (buffer_full copied).1 else copied)

  -- The loop of `+=`, over the characters that are left.
  unfoldable pub append_loop : ℕ → Bytes → M (Buffer X) (Unit {0})
  unfolding copy amount
  append_loop fuel [] b = ok tt b
  append_loop zero (c ∷ cs) b = diverges
  append_loop (suc fuel) (c ∷ cs) b =
      let to_copy = amount (c ∷ cs) b in
      let copied = copy to_copy (c ∷ cs) b in
      elim (leb (2 ^ 31) copied.size) [
        | true ↦ undefined
        | false ↦ elim (copied.space == 0) [
          | false ↦ append_loop fuel (drop to_copy (c ∷ cs)) copied
          | true ↦ elim (buffer_full copied).0 [
            | true ↦ append_loop fuel (drop to_copy (c ∷ cs)) (buffer_full copied).1
            | false ↦ ok tt (buffer_full copied).1
          ]
        ]
      ]

  -- The loop goes up to `int(added.size())`: what is behind is not appended. A round copies a
  -- character at least where there is room, so this fuel is enough.
  unfoldable pub append : Bytes → M (Buffer X) (Unit {0})
  unfolding append_loop
  append added = elim (narrow int_32 (pos (length added))) [
    | pos n ↦ append_loop n (take n added)
    | negsuc _ ↦ return tt
  ]

-- `NonExpandingBuffer`: it has nothing of its own, and drops what is too much.
abbrev pub non_expanding_full : Buffer (Unit {0}) → Bool × Buffer (Unit {0})
non_expanding_full b = (false, b)

-- `ExpandingBuffer`: the size of `_extended`. The block holds the whole text.
unfoldable pub expanding_full : ℕ → Buffer ℕ → Bool × Buffer ℕ
expanding_full static_size b = (
  true,
  (if b.own == 0
      then record b { space = 2 * static_size; own = 3 * static_size }
      else record b { space = b.own; own = 2 * b.own }),
)

-- `clear()` of the expanding buffer; the size stays.
unfoldable pub clear_expanding : ℕ → Buffer ℕ → Buffer ℕ
clear_expanding static_size b = record b { block = []; space = static_size; own = 0 }

unfoldable pub clear_non_expanding : {X : Type 0} → ℕ → Buffer X → Buffer X
clear_non_expanding static_size b = record b { block = []; space = static_size }

-- `NonOwningStreamingBuffer`: what `writer` was given, and the size at that time.
pub record Streaming : Type 0 where
  pub sent : Bytes
  pub size_at_last_flush : ℕ

unfoldable pub flush : Buffer Streaming → Buffer Streaming
flush b =
    if ltb b.own.size_at_last_flush b.size
    then record b {
      own = record {
        sent = b.own.sent ++ take (b.size - b.own.size_at_last_flush) b.block;
        size_at_last_flush = b.size;
      };
    }
    else b

unfoldable pub streaming_full : ℕ → Buffer Streaming → Bool × Buffer Streaming
unfolding flush
streaming_full static_size b = (
  true,
  record (flush b) {
    block = [];
    space = static_size;
    own = record (flush b).own { size_at_last_flush = (flush b).size };
  },
)

unfoldable pub new_streaming : ℕ → Buffer Streaming
new_streaming static_size = record {
  block = [];
  space = static_size;
  size = 0;
  own = record { sent = []; size_at_last_flush = 0 };
}
