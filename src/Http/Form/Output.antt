-- ===== src/Http/Form/Output.antt =====
-- bomba_http.hpp, HtmlMessageEncoding::Output: a form's members, joined by ampersands. Writing a
-- double is not modelled.
use bomba.Base.{
  zero, suc, Bool, true, false, [], ◌∷◌, ◌++◌, Bytes, length, ltb, ◌==◌, if◌then◌else◌,
}
use bomba.Base.Charconv.{to_chars}
use bomba.Base.Int.{ℤ, pos, negsuc, incr}
use bomba.Base.Outcome.{M, ok, undefined, logic_error, ◌>>◌, return, throw}
use bomba.Base.Text.{codes}
use bomba.Core.Flags.{Flags, has_flag, empty_is_null}
use bomba.Http.Url.{mangle_http_response}

-- `object_index` is -1 where no object is being written.
pub record Output : Type 0 where
  pub contents : Bytes
  pub object_index : ℤ

-- `_contents += text`
abbrev pub append : Bytes → M Output (Unit {0})
append text o = ok tt (record o { contents = o.contents ++ text })

-- The digits are formatted into an array of 20 zeros, which is then read as a C string: with 20
-- characters or more there is no zero left that ends it.
unfoldable pub write_int : ℤ → M Output (Unit {0})
write_int value o =
    if ltb (length (to_chars value)) 20 then append (to_chars value) o else undefined

unfoldable pub write_string : Bytes → M Output (Unit {0})
write_string value = append (mangle_http_response 0 value)

unfoldable pub write_bool : Bool → M Output (Unit {0})
write_bool value = if value then append (codes "true") else throw logic_error

unfoldable pub write_null : Flags → M Output (Unit {0})
write_null flags = if has_flag flags empty_is_null then return tt else throw logic_error

-- What all three calls for arrays do.
unfoldable pub no_arrays : M Output (Unit {0})
no_arrays = throw logic_error

-- -1 is `OBJECT_NOT_WRITTEN`.
unfoldable pub is_written : ℤ → Bool
is_written (pos n) = true
is_written (negsuc zero) = false
is_written (negsuc (suc n)) = true

unfoldable pub start_writing_object : M Output (Unit {0})
unfolding is_written
start_writing_object o =
    if is_written o.object_index
    then throw logic_error o
    else ok tt (record o { object_index = pos 0 })

abbrev is_zero : ℤ → Bool
is_zero (pos n) = n == 0
is_zero (negsuc n) = false

-- The name is what `name.data()` points to, up to the NUL character that ends it.
unfoldable pub introduce_object_member : Bytes → M Output (Unit {0})
introduce_object_member name o =
    (do append (if is_zero o.object_index then [] else b'&' ∷ []); append name; append (b'=' ∷ []))
      (record o { object_index = incr o.object_index })

unfoldable pub end_writing_object : M Output (Unit {0})
end_writing_object o = ok tt (record o { object_index = negsuc 0 })

unfoldable pub write_optional : Flags → Bool → M Output (Unit {0}) → M Output (Unit {0})
unfolding write_null
write_optional flags present write_value = if present then write_value else write_null flags
