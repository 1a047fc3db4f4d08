-- ===== src/Tcp/Buffer/Memory.antt =====
-- Where bytes are in a memory, and what writes do to them.
use bomba.Base.{
  ℕ, zero, suc, ◌+◌, ◌-◌, ◌≤◌, [], ◌∷◌, ◌++◌, Bytes, length, length-append, length-drop,
  length-take, take, drop, drop-drop, replicate, length-replicate, take-append-drop,
  drop-length_append, take-length_append, ◌≡◌, refl, sym, ap, ◌∙◌, arith, append_assoc, append-nil,
}
use bomba.Tcp.Buffer.{splice, resize}

-- The bytes `unread` are in the memory from the index `start` to `end`.
pub record Holds (bytes : Bytes) (start end : ℕ) (unread : Bytes) : Type 0 where
  pub before : Bytes
  pub after : Bytes
  pub shape : bytes ≡ before ++ (unread ++ after)
  pub starts : length before ≡ start
  pub ends : start + length unread ≡ end

pub Holds-length :
    {bytes : Bytes} {start end : ℕ} {unread : Bytes} (h : Holds bytes start end unread)
    → length bytes ≡ end + length h.after
Holds-length {bytes} {start} {end} {unread} h = omega (
  arith,
  ap (λ (l : Bytes). length l) h.shape,
  length-append h.before (unread ++ h.after),
  length-append unread h.after,
  h.starts,
  h.ends,
)

-- It is what the span of the two indices shows.
pub Holds-input :
    {bytes : Bytes} {start end : ℕ} {unread : Bytes}
    → Holds bytes start end unread
    → take (end - start) (drop start bytes) ≡ unread
Holds-input {bytes} {start} {end} {unread} h =
    ap (λ (n : ℕ). take n (drop start bytes)) {y = length unread} (omega (arith, h.ends))
    ∙ ap (λ (l : Bytes). take (length unread) (drop start l)) h.shape
    ∙ ap (λ (n : ℕ). take (length unread) (drop n (h.before ++ (unread ++ h.after)))) (sym h.starts)
    ∙ ap (take (length unread)) (drop-length_append h.before (unread ++ h.after))
    ∙ take-length_append unread h.after

pub splice-append :
    (xs ys bytes : Bytes)
    → splice (length xs) bytes (xs ++ ys) ≡ xs ++ (bytes ++ drop (length bytes) ys)
unfolding splice
splice-append xs ys bytes =
    ap (λ (l : Bytes). l ++ (bytes ++ drop (length xs + length bytes) (xs ++ ys)))
      (take-length_append xs ys)
    ∙ ap (λ (l : Bytes). xs ++ (bytes ++ l)) (drop-drop (length xs) (length bytes) (xs ++ ys))
    ∙ ap (λ (l : Bytes). xs ++ (bytes ++ drop (length bytes) l)) (drop-length_append xs ys)

pub splice-at :
    (n : ℕ) (xs ys bytes : Bytes)
    → length xs ≡ n
    → splice n bytes (xs ++ ys) ≡ xs ++ (bytes ++ drop (length bytes) ys)
splice-at n xs ys bytes e =
    ap (λ (k : ℕ). splice k bytes (xs ++ ys)) (sym e) ∙ splice-append xs ys bytes

-- The session's changes to its span.
pub Holds-splice :
    {bytes : Bytes} {start end : ℕ} {unread : Bytes} (new : Bytes)
    → Holds bytes start end unread
    → length new ≡ length unread
    → Holds (splice start new bytes) start end new
Holds-splice {bytes} {start} {end} {unread} new h same = record {
  before = h.before;
  after = h.after;
  shape =
      ap (splice start new) h.shape
      ∙ splice-at start h.before (unread ++ h.after) new h.starts
      ∙ ap (λ (n : ℕ). h.before ++ (new ++ drop n (unread ++ h.after))) same
      ∙ ap (λ (l : Bytes). h.before ++ (new ++ l)) (drop-length_append unread h.after);
  starts = h.starts;
  ends = omega (arith, h.ends, same);
}

pub Holds-splice-length :
    {bytes : Bytes} {start end : ℕ} {unread : Bytes} (new : Bytes)
    → Holds bytes start end unread
    → length new ≡ length unread
    → length (splice start new bytes) ≡ length bytes
unfolding Holds-splice
Holds-splice-length new h same = Holds-length (Holds-splice new h same) ∙ sym (Holds-length h)

-- What is taken from the front.
pub Holds-take :
    {bytes : Bytes} {start end : ℕ} {unread : Bytes} (n : ℕ)
    → Holds bytes start end unread
    → n ≤ length unread
    → Holds bytes (start + n) end (drop n unread)
Holds-take {bytes} {start} {end} {unread} n h fits = record {
  before = h.before ++ take n unread;
  after = h.after;
  shape =
      h.shape
      ∙ ap (λ (l : Bytes). h.before ++ (l ++ h.after)) (sym (take-append-drop n unread))
      ∙ ap (λ (l : Bytes). h.before ++ l) (append_assoc (take n unread) (drop n unread) h.after)
      ∙ sym (append_assoc h.before (take n unread) (drop n unread ++ h.after));
  starts =
      omega (arith, length-append h.before (take n unread), h.starts, length-take_le n unread fits);
  ends = omega (arith, h.ends, length-drop n unread, fits);
}
  where
    length-take_le : (n : ℕ) (xs : Bytes) → n ≤ length xs → length (take n xs) ≡ n
    length-take_le zero xs h = refl
    length-take_le (suc n) [] h = absurd (omega (arith, h))
    length-take_le (suc n) (x ∷ xs) h = ap suc (length-take_le n xs (omega (arith, h)))

-- What arrives behind it.
pub Holds-arrive :
    {bytes : Bytes} {start end : ℕ} {unread : Bytes} (chunk : Bytes)
    → Holds bytes start end unread
    → Holds (splice end chunk bytes) start (end + length chunk) (unread ++ chunk)
Holds-arrive {bytes} {start} {end} {unread} chunk h = record {
  before = h.before;
  after = drop (length chunk) h.after;
  shape =
      ap (splice end chunk) (h.shape ∙ sym (append_assoc h.before unread h.after))
      ∙ splice-at end (h.before ++ unread) h.after chunk
          (omega (arith, length-append h.before unread, h.starts, h.ends))
      ∙ append_assoc h.before unread (chunk ++ drop (length chunk) h.after)
      ∙ ap (λ (l : Bytes). h.before ++ l)
          (sym (append_assoc unread chunk (drop (length chunk) h.after)));
  starts = h.starts;
  ends = omega (arith, h.ends, length-append unread chunk);
}

-- A copy to the start of a memory.
pub Holds-copy :
    (bytes target unread : Bytes) (n : ℕ)
    → bytes ≡ unread
    → length unread ≡ n
    → Holds (splice 0 bytes target) 0 n unread
unfolding splice
Holds-copy bytes target unread n e size = record {
  before = [];
  after = drop (0 + length bytes) target;
  shape = ap (λ (l : Bytes). l ++ drop (0 + length bytes) target) e;
  starts = refl;
  ends = omega (arith, size);
}

-- The memory from the bytes on.
pub Holds-drop :
    {bytes : Bytes} {start end : ℕ} {unread : Bytes} (n : ℕ)
    → Holds bytes start end unread
    → length unread ≡ n
    → Holds (drop start bytes) 0 n unread
Holds-drop {bytes} {start} {end} {unread} n h size = record {
  before = [];
  after = h.after;
  shape =
      ap (drop start) h.shape
      ∙ ap (λ (k : ℕ). drop k (h.before ++ (unread ++ h.after))) (sym h.starts)
      ∙ drop-length_append h.before (unread ++ h.after);
  starts = refl;
  ends = omega (arith, size);
}

pub length-resize : (n : ℕ) (bytes : Bytes) → length (resize n bytes) ≡ n
unfolding resize
length-resize n bytes = omega (
  arith,
  length-append (take n bytes) (replicate (n - length bytes) 0),
  length-take n bytes,
  length-replicate {A = ℕ} (n - length bytes) 0,
)

take_past : (n : ℕ) (xs : Bytes) → length xs ≤ n → take n xs ≡ xs
take_past zero [] h = refl
take_past zero (x ∷ xs) h = absurd (omega (arith, h))
take_past (suc n) [] h = refl
take_past (suc n) (x ∷ xs) h = ap (λ (l : Bytes). x ∷ l) (take_past n xs (omega (arith, h)))

-- A vector that is cut behind the bytes.
pub Holds-cut :
    {bytes : Bytes} {start end : ℕ} {unread : Bytes}
    → Holds bytes start end unread
    → Holds (resize end bytes) start end unread
unfolding resize
Holds-cut {bytes} {start} {end} {unread} h = record {
  before = h.before;
  after = [];
  shape =
      ap (λ (l : Bytes). take end l ++ replicate (end - length bytes) 0)
        (h.shape ∙ sym (append_assoc h.before unread h.after))
      ∙ ap (λ (n : ℕ). take n ((h.before ++ unread) ++ h.after) ++ replicate (end - length bytes) 0)
          {y = length (h.before ++ unread)}
          (omega (arith, h.starts, h.ends, length-append h.before unread))
      ∙ ap (λ (l : Bytes). l ++ replicate (end - length bytes) 0)
          (take-length_append (h.before ++ unread) h.after)
      ∙ ap (λ (n : ℕ). (h.before ++ unread) ++ replicate n 0) {y = 0}
          (omega (arith, Holds-length h))
      ∙ append_assoc h.before unread [];
  starts = h.starts;
  ends = h.ends;
}

-- A vector that grows.
pub Holds-grow :
    {bytes : Bytes} {start end : ℕ} {unread : Bytes} (n : ℕ)
    → Holds bytes start end unread
    → length bytes ≤ n
    → Holds (resize n bytes) start end unread
unfolding resize
Holds-grow {bytes} {start} {end} {unread} n h fits = record {
  before = h.before;
  after = h.after ++ replicate (n - length bytes) 0;
  shape =
      ap (λ (l : Bytes). l ++ replicate (n - length bytes) 0) (take_past n bytes fits ∙ h.shape)
      ∙ append_assoc h.before (unread ++ h.after) (replicate (n - length bytes) 0)
      ∙ ap (λ (l : Bytes). h.before ++ l)
          (append_assoc unread h.after (replicate (n - length bytes) 0));
  starts = h.starts;
  ends = h.ends;
}

no_bytes : (xs : Bytes) → length xs ≡ 0 → xs ≡ []
no_bytes [] h = refl
no_bytes (x ∷ xs) h = absurd (omega (arith, h))

-- The bytes that fill a memory.
pub Holds-all :
    {bytes : Bytes} {end : ℕ} {unread : Bytes}
    → Holds bytes 0 end unread
    → length bytes ≡ end
    → bytes ≡ unread
Holds-all {bytes} {end} {unread} h full =
    h.shape
    ∙ ap (λ (l : Bytes). l ++ (unread ++ h.after)) (no_bytes h.before h.starts)
    ∙ ap (λ (l : Bytes). unread ++ l) (no_bytes h.after (omega (arith, Holds-length h, full)))
    ∙ append-nil unread

-- Where no bytes are unread, they are anywhere.
pub Holds-none :
    {bytes : Bytes} {start end : ℕ} {unread : Bytes} (target : Bytes)
    → Holds bytes start end unread
    → start ≡ end
    → Holds target 0 0 unread
Holds-none {unread = unread} target h e = record {
  before = [];
  after = target;
  shape = ap (λ (l : Bytes). l ++ target) (sym (no_bytes unread (omega (arith, h.ends, e))));
  starts = refl;
  ends = omega (arith, h.ends, e);
}

pub length-splice_inside :
    (n : ℕ) (bytes target : Bytes)
    → n + length bytes ≤ length target
    → length (splice n bytes target) ≡ length target
unfolding splice
length-splice_inside n bytes target fits = omega (
  arith,
  fits,
  length-append (take n target) (bytes ++ drop (n + length bytes) target),
  length-append bytes (drop (n + length bytes) target),
  length-take n target,
  length-drop (n + length bytes) target,
)

pub length-splice :
    (bytes target : Bytes)
    → length bytes ≤ length target
    → length (splice 0 bytes target) ≡ length target
unfolding splice
length-splice bytes target fits = omega (
  arith,
  fits,
  length-append bytes (drop (0 + length bytes) target),
  length-drop (0 + length bytes) target,
)
