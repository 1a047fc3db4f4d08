-- ===== src/Tcp/Buffer/Reads.antt =====
-- What one reading of the session leaves in the buffer.
use bomba.Base.{
  ℕ, ◌+◌, ◌≤◌, ◌<◌, false, [], ◌∷◌, Bytes, length, drop, ltb, Bool-cases, inl, inr, ◌≡◌, ◌≢◌, ◌⊎◌,
  refl, sym, ◌∙◌, arith,
}
use mathlib.Core.Path.{subst}
use bomba.Core.Tcp.{ServerReaction, read_on, wrong_reply, disconnect}
use bomba.Tcp.Stream.{FeedResult, returns, throws, Fed}
use bomba.Tcp.Buffer.{ServerBuffer, memory, put_memory, splice, after_read, is_empty}
use bomba.Tcp.Buffer.Memory.{Holds, Holds-splice, Holds-splice-length, Holds-take}

-- The unread bytes of a buffer.
abbrev pub Unread : ServerBuffer → Bytes → Type 0
Unread b unread = Holds (memory b) b.kept_start b.kept_end unread

-- The buffers differ in what they hold and in where the unread bytes begin.
pub record SameShape (b c : ServerBuffer) : Type 0 where
  pub kept_end : c.kept_end ≡ b.kept_end
  pub array_size : length c.response_array ≡ length b.response_array
  pub vector_size : length c.long_leftovers ≡ length b.long_leftovers

pub SameShape-trans : {a b c : ServerBuffer} → SameShape a b → SameShape b c → SameShape a c
SameShape-trans h k = record {
  kept_end = k.kept_end ∙ h.kept_end;
  array_size = k.array_size ∙ h.array_size;
  vector_size = k.vector_size ∙ h.vector_size;
}

put_fields :
    (array : Bytes) (space_start space_size kept_start kept_end : ℕ) (long bytes : Bytes)
    → length bytes
      ≡ length (
          memory (record {
            response_array = array;
            space_start = space_start;
            space_size = space_size;
            kept_start = kept_start;
            kept_end = kept_end;
            long_leftovers = long;
          }))
    → let b : ServerBuffer = record {
      response_array = array;
      space_start = space_start;
      space_size = space_size;
      kept_start = kept_start;
      kept_end = kept_end;
      long_leftovers = long;
    } in
      SameShape b (put_memory bytes b) × (memory (put_memory bytes b) ≡ bytes)
unfolding memory put_memory
put_fields array a b c d [] bytes same =
    (record { kept_end = refl; array_size = same; vector_size = refl }, refl)
put_fields array a b c d (l ∷ ls) [] same = absurd (omega (arith, same))
put_fields array a b c d (l ∷ ls) (x ∷ xs) same =
    (record { kept_end = refl; array_size = refl; vector_size = same }, refl)

pub put_memory-SameShape :
    (bytes : Bytes) (b : ServerBuffer)
    → length bytes ≡ length (memory b)
    → SameShape b (put_memory bytes b) × (memory (put_memory bytes b) ≡ bytes)
put_memory-SameShape bytes b same =
    put_fields b.response_array b.space_start b.space_size b.kept_start b.kept_end b.long_leftovers
      bytes same

-- A write inside the memory.
pub put_splice :
    (b : ServerBuffer) (unread new : Bytes)
    → Unread b unread
    → length new ≡ length unread
    → let c = put_memory (splice b.kept_start new (memory b)) b in
      SameShape b c × (memory c ≡ splice b.kept_start new (memory b))
put_splice b unread new h same =
    put_memory-SameShape (splice b.kept_start new (memory b)) b (Holds-splice-length new h same)

-- Bytes at an equal place of an equal memory.
Holds-eq :
    {bytes target : Bytes} {start end last : ℕ} {unread : Bytes}
    → target ≡ bytes
    → last ≡ end
    → Holds bytes start end unread
    → Holds target start last unread
Holds-eq {bytes = bytes} {start = start} {last = last} {unread = unread} e f h =
    subst (λ (l : Bytes). Holds l start last unread) (sym e)
      (subst (λ (n : ℕ). Holds bytes start n unread) (sym f) h)

pub reaction-cases :
    (r : FeedResult) → (r ≡ returns ServerReaction.ok) ⊎ (r ≢ returns ServerReaction.ok)
reaction-cases (returns ServerReaction.ok) = inl refl
reaction-cases (returns read_on) = inr (λ e. cc)
reaction-cases (returns wrong_reply) = inr (λ e. cc)
reaction-cases (returns disconnect) = inr (λ e. cc)
reaction-cases (throws x) = inr (λ e. cc)

pub not_less : (a b : ℕ) → b ≤ a → ltb a b ≡ false
not_less a b h = ground (arith, h)

-- What the messages leave behind that are taken.
pub after_read-ok :
    {X : Type 0} (fed : Fed X) (b : ServerBuffer) (unread : Bytes)
    → fed.reaction ≡ returns ServerReaction.ok
    → length fed.input ≡ length unread
    → 1 ≤ fed.parsed
    → fed.parsed ≤ length unread
    → Unread b unread
    → SameShape b (after_read fed b)
      × Unread (after_read fed b) (drop fed.parsed fed.input)
      × (b.kept_start < (after_read fed b).kept_start)
unfolding after_read memory
after_read-ok fed b unread e same some_taken inside h =
    let changed = put_memory (splice b.kept_start fed.input (memory b)) b in
    let (shape, bytes) = put_splice b unread fed.input h same in
    let c : ServerBuffer = record changed { kept_start = b.kept_start + fed.parsed } in
    let eq : after_read fed b ≡ c = rw (e, after_read) in
    subst
      (λ (d : ServerBuffer).
        SameShape b d × Unread d (drop fed.parsed fed.input) × (b.kept_start < d.kept_start))
      (sym eq)
      (
        record {
          kept_end = shape.kept_end;
          array_size = shape.array_size;
          vector_size = shape.vector_size;
        },
        Holds-eq bytes shape.kept_end
            (Holds-take fed.parsed (Holds-splice fed.input h same) (omega (arith, inside, same))),
        omega (arith, some_taken),
      )

after_read-changed :
    {X : Type 0} (fed : Fed X) (b : ServerBuffer)
    → fed.reaction ≢ returns ServerReaction.ok
    → after_read fed b ≡ put_memory (splice b.kept_start fed.input (memory b)) b
unfolding after_read
after_read-changed fed b n = ground (arith, n)

pub put_memory-kept_start :
    (bytes : Bytes) (b : ServerBuffer) → (put_memory bytes b).kept_start ≡ b.kept_start
unfolding put_memory
put_memory-kept_start bytes b = elim (Bool-cases (is_empty b.long_leftovers)) [
  | inl e ↦ rw e refl
  | inr e ↦ rw e refl
]

-- What the others leave.
pub after_read-other :
    {X : Type 0} (fed : Fed X) (b : ServerBuffer) (unread : Bytes)
    → fed.reaction ≢ returns ServerReaction.ok
    → length fed.input ≡ length unread
    → Unread b unread
    → SameShape b (after_read fed b)
      × Unread (after_read fed b) fed.input
      × ((after_read fed b).kept_start ≡ b.kept_start)
unfolding after_read memory
after_read-other fed b unread n same h =
    let bytes = splice b.kept_start fed.input (memory b) in
    let (shape, written) = put_splice b unread fed.input h same in
    subst (λ (d : ServerBuffer). SameShape b d × Unread d fed.input × (d.kept_start ≡ b.kept_start))
      (sym (after_read-changed fed b n))
      (
        shape,
        subst
            (λ (k : ℕ).
              Holds (memory (put_memory bytes b)) k (put_memory bytes b).kept_end fed.input)
            (sym (put_memory-kept_start bytes b))
            (Holds-eq written shape.kept_end (Holds-splice fed.input h same)),
        put_memory-kept_start bytes b,
      )
