-- ===== src/Base/Text.antt =====
-- Byte strings written as text, and compared.
use Prim.Native.Char.{code}
use Prim.Native.String.{String}
use bomba.Base.{Bytes, Bool, true, false, ◌&&◌, ◌==◌, [], ◌∷◌}

-- The bytes of an ASCII text.
abbrev pub codes : String → Bytes
codes String.[] = []
codes (String.◌∷◌ c s) = code c ∷ codes s

-- `==` of strings.
abbrev pub same_text : Bytes → Bytes → Bool
same_text [] [] = true
same_text [] (d ∷ ds) = false
same_text (c ∷ cs) [] = false
same_text (c ∷ cs) (d ∷ ds) = (c == d) && same_text cs ds
