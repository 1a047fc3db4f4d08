-- ===== src/Json/Output.antt =====
-- bomba_json.hpp, BasicJson::Output: JSON text appended to a string. The flags are unused in it, so
-- they are not modelled. Writing a double is not modelled.
use bomba.Base.{
  ℕ, zero, suc, Bool, true, false, ◌||◌, [], ◌∷◌, ◌++◌, Bytes, length, replicate, ltb, ◌==◌,
  if◌then◌else◌,
}
use bomba.Base.Charconv.{to_chars}
use bomba.Base.Int.{ℤ, pos, negsuc, incr, decr, pos_part}
use bomba.Base.Outcome.{M, ok, undefined, ◌>>◌}
use bomba.Base.Text.{codes}

pub record Output : Type 0 where
  pub contents : Bytes
  pub depth : ℤ
  pub skip_newline : Bool

-- `_contents += text`
abbrev pub append : Bytes → M Output (Unit {0})
append text o = ok tt (record o { contents = o.contents ++ text })

-- The digits are formatted into an array of 20 zeros, which is then read as a C string: with 20
-- characters or more there is no zero left that ends it.
unfoldable pub write_int : ℤ → M Output (Unit {0})
write_int value o =
    if ltb (length (to_chars value)) 20 then append (to_chars value) o else undefined

unfoldable pub new_line : M Output (Unit {0})
new_line o =
    if o.skip_newline
    then ok tt (record o { skip_newline = false })
    else append (b'\n' ∷ replicate (pos_part o.depth) b'\t') o

-- What `writeString` appends for the characters of its value.
unfoldable pub escaped : Bytes → Bytes
escaped [] = []
escaped (c ∷ cs) =
    let rest = escaped cs in
    if c == b'\\' || (c == b'\n' || c == b'"') then b'\\' ∷ c ∷ rest else c ∷ rest

unfoldable pub write_string : Bytes → M Output (Unit {0})
write_string value = append (b'"' ∷ (escaped value ++ (b'"' ∷ [])))

unfoldable pub write_bool : Bool → M Output (Unit {0})
write_bool value = append (if value then codes "true" else codes "false")

unfoldable pub write_null : M Output (Unit {0})
write_null = append (codes "null")

-- What `startWritingArray` and `startWritingObject` do: the bracket, the depth and the newline that
-- an empty container leaves out.
open_with : ℕ → ℤ → M Output (Unit {0})
open_with bracket size o = ok tt (record {
  contents = o.contents ++ (bracket ∷ []);
  depth = incr o.depth;
  skip_newline = elim size [
    | pos n ↦ if n == 0 then true else o.skip_newline
    | negsuc _ ↦ o.skip_newline
  ];
})

close_with : ℕ → M Output (Unit {0})
close_with bracket o = (do new_line; append (bracket ∷ [])) (record o { depth = decr o.depth })

-- The comma in front of every member but the first, and the new line.
separate : ℕ → M Output (Unit {0})
separate zero = new_line
separate (suc index) = do append (b',' ∷ []); new_line

unfoldable pub start_writing_array : ℤ → M Output (Unit {0})
unfolding open_with
start_writing_array = open_with b'['

unfoldable pub introduce_array_element : ℕ → M Output (Unit {0})
unfolding separate
introduce_array_element = separate

unfoldable pub end_writing_array : M Output (Unit {0})
unfolding close_with
end_writing_array = close_with b']'

unfoldable pub start_writing_object : ℤ → M Output (Unit {0})
unfolding open_with
start_writing_object = open_with b'{'

unfoldable pub introduce_object_member : Bytes → ℕ → M Output (Unit {0})
unfolding separate
introduce_object_member name index = do separate index; write_string name; append (codes " : ")

unfoldable pub end_writing_object : M Output (Unit {0})
unfolding close_with
end_writing_object = close_with b'}'

unfoldable pub write_optional : Bool → M Output (Unit {0}) → M Output (Unit {0})
write_optional present write_value = if present then write_value else write_null
