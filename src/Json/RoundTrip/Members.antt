-- ===== src/Json/RoundTrip/Members.antt =====
-- Which integers, strings and booleans JSON carries over, and the round trip of what it carries.
use bomba.Base.{
  ℕ, suc, ◌^◌, ◌≤◌, ◌<◌, Bool, true, false, [], ◌∷◌, ◌++◌, Bytes, length, length-append, ltb,
  ltb→lt, lt→ltb, Bool-cases, inl, inr, if◌then◌else◌, drop, drop-length_append, ◌≡◌, ◌≢◌, refl,
  sym, ap, ◌∙◌, arith, append_assoc, append-nil, All,
}
use bomba.Base.Charconv.{to_chars, IsInt64}
use bomba.Base.Charconv.RoundTrip.{length-to_digits, length-to_digits_ge}
use bomba.Base.Int.{ℤ, pos, negsuc, neg_part}
use bomba.Base.Outcome.{ok, undefined}
use bomba.Base.Text.{codes}
use bomba.Core.Flags.{Flags, int_64}
use bomba.Core.Integer.{narrow, narrow-InRange}
use bomba.Core.Serialiser.{TypedSerialiser, integer, string, boolean}
use bomba.Json.Format.{json_output, json_input}
use bomba.Json.Input.{Input, advance, is_blank, is_float_tail}
use bomba.Json.Output.{Output, write_int, write_string, write_bool, escaped}
use bomba.Json.RoundTrip.{
  Stands, kept, to_chars-head, read_int-Stands, read_string-Stands, read_bool-Stands,
}
use bomba.Json.RoundTrip.Vector.{Carries, is_delimiter}

-- `writeInt` appends the characters of an int64_t above -10^18, and on every other it goes past the
-- array that it formats the number in.
pub write_int_bounds :
    (v : ℤ) (o : Output)
    → IsInt64 v
    → write_int v o ≡ (
        if ltb (neg_part v) (10 ^ 18)
        then ok tt (record o { contents = o.contents ++ to_chars v })
        else undefined)
unfolding write_int to_chars
write_int_bounds (pos n) o h = ground (arith, length-to_digits n 18 (omega arith))
write_int_bounds (negsuc n) o h = elim (Bool-cases (ltb (suc n) (10 ^ 18))) [
  | inl small ↦ ground (arith, length-to_digits (suc n) 17 (ltb→lt (suc n) (10 ^ 18) small))
  | inr large ↦ ground (arith, length-to_digits_ge (suc n) 18 (ground arith))
]

delimiter-is_float_tail : (c : ℕ) → is_delimiter c ≡ true → is_float_tail c ≡ false
unfolding is_delimiter is_float_tail
delimiter-is_float_tail c h = ground arith

-- A string with no newline is kept.
kept-eq : (value : Bytes) → All (λ c. c ≢ b'\n') value → kept value ≡ value
unfolding kept
kept-eq [] h = refl
kept-eq (c ∷ cs) h = ground (arith, kept-eq cs h.1)

pub string-Carries :
    (value : Bytes) → All (λ c. c ≢ b'\n') value → Carries (string json_output json_input) value
unfolding write_string
string-Carries value h = record {
  first = λ d. b'"';
  others = λ d. escaped value ++ (b'"' ∷ []);
  fuel = 0;
  first_blank = λ d. unfold is_blank in refl;
  first_bracket = λ d. refl;
  writes = λ o flags n. refl;
  reads = λ d i old flags k c rest delimits f at.
      let here : Stands i (b'"' ∷ (escaped value ++ (b'"' ∷ (c ∷ rest)))) =
        at ∙ ap (λ (l : Bytes). b'"' ∷ l) (append_assoc (escaped value) (b'"' ∷ []) (c ∷ rest)) in
      ground (
        arith,
        read_string-Stands i value (c ∷ rest) here,
        kept-eq value h,
        length-append (escaped value) (b'"' ∷ []),
      );
}

pub boolean-Carries : (b : Bool) → Carries (boolean json_output json_input) b
unfolding write_bool
boolean-Carries true = record {
  first = λ d. b't';
  others = λ d. codes "rue";
  fuel = 0;
  first_blank = λ d. unfold is_blank in refl;
  first_bracket = λ d. refl;
  writes = λ o flags n. refl;
  reads = λ d i old flags k c rest delimits f at. read_bool-Stands i true (c ∷ rest) at;
}
boolean-Carries false = record {
  first = λ d. b'f';
  others = λ d. codes "alse";
  fuel = 0;
  first_blank = λ d. unfold is_blank in refl;
  first_bracket = λ d. refl;
  writes = λ o flags n. refl;
  reads = λ d i old flags k c rest delimits f at. read_bool-Stands i false (c ∷ rest) at;
}

-- The int64_t values that `writeInt` can write.
abbrev pub IsWritable : ℤ → Type 0
IsWritable v = IsInt64 v × (neg_part v < 10 ^ 18)

IsWritable-narrow : (v : ℤ) → IsWritable v → narrow int_64 v ≡ v
IsWritable-narrow (pos n) h = narrow-InRange int_64 (pos n) (omega arith)
IsWritable-narrow (negsuc n) h = narrow-InRange int_64 (negsuc n) (omega arith)

read_integer :
    (i : Input) (v old : ℤ) (flags : Flags) (k c : ℕ) (rest : Bytes)
    → IsWritable v
    → is_delimiter c ≡ true
    → Stands i (to_chars v ++ (c ∷ rest))
    → (integer json_output json_input int_64).deserialise_member k old flags i
      ≡ ok v (advance (length (to_chars v)) i)
read_integer i v old flags k c rest h delimits at = ground (
  arith,
  read_int-Stands i v (c ∷ rest) h.0 (delimiter-is_float_tail c delimits) at,
  IsWritable-narrow v h,
)

pub integer-Carries : (v : ℤ) → IsWritable v → Carries (integer json_output json_input int_64) v
integer-Carries v h =
    let (c, cs, e, blank, bracket) = to_chars-head v [] in
    let text : to_chars v ≡ c ∷ cs = sym (append-nil (to_chars v)) ∙ e in
    record {
      first = λ d. c;
      others = λ d. cs;
      fuel = 0;
      first_blank = λ d. blank;
      first_bracket = λ d. ground arith;
      writes = λ o flags n.
          (write_int_bounds v o h.0 ∙ rw (lt→ltb (neg_part v) (10 ^ 18) h.1))
          ∙ ap (λ (l : Bytes). ok tt (record o { contents = o.contents ++ l })) text;
      reads = λ d i old flags k b rest delimits f at.
          read_integer i v old flags k b rest h delimits
            (at ∙ ap (λ (l : Bytes). l ++ (b ∷ rest)) (sym text))
          ∙ ap (λ (l : Bytes). ok v (advance (length l) i)) text;
    }

-- A carried value is read back from where it was written, with a delimiter behind it.
pub Carries-round_trip :
    {T : Type 0} (s : TypedSerialiser Output Input T) (v : T) (carried : Carries s v) (o : Output)
    (old : T) (flags : Flags) (k c : ℕ) (rest : Bytes) (good : Bool)
    → o.skip_newline ≡ false
    → is_delimiter c ≡ true
    → carried.fuel ≤ k
    → (p : Output) × (s.serialise_member v flags o ≡ ok tt p)
      × (s.deserialise_member k old flags (record {
        contents = p.contents ++ (c ∷ rest);
        position = length o.contents;
        good = good;
      })
          ≡ ok v (record {
            contents = p.contents ++ (c ∷ rest);
            position = length p.contents;
            good = good;
          }))
Carries-round_trip s v carried o old flags k c rest good n delimits enough =
    let text = carried.first o.depth ∷ carried.others o.depth in
    let i : Input = record {
      contents = (o.contents ++ text) ++ (c ∷ rest);
      position = length o.contents;
      good = good;
    } in
    let at : Stands i (text ++ (c ∷ rest)) =
      ap (drop (length o.contents)) (append_assoc o.contents text (c ∷ rest))
      ∙ drop-length_append o.contents (text ++ (c ∷ rest)) in
    (
      record o { contents = o.contents ++ text },
      carried.writes o flags n,
      carried.reads o.depth i old flags k c rest delimits enough at
          ∙ ap (λ (m : ℕ). ok v (record i { position = m })) (sym (length-append o.contents text)),
    )
