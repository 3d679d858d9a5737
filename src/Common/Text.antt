-- ===== src/Common/Text.antt =====
-- The functions of Go's package strings that the program calls, on native texts.
use Prim.Native.Char.{code}
use Prim.Native.String.{String}
use mathlib.Core.Bool.{Bool, true, false, ◌&&◌, ◌||◌}
use auto_repair.Common.Tests.{◌==◌, if◌then◌else◌}

-- strings.HasPrefix(s, prefix)
unfoldable pub has_prefix : String → String → Bool
has_prefix s String.[] = true
has_prefix String.[] (String.◌∷◌ d p) = false
has_prefix (String.◌∷◌ c s) (String.◌∷◌ d p) = code c == code d && has_prefix s p

-- strings.Contains(s, substr)
unfoldable pub contains_text : String → String → Bool
unfolding has_prefix
contains_text String.[] sub = has_prefix String.[] sub
contains_text (String.◌∷◌ c s) sub = has_prefix (String.◌∷◌ c s) sub || contains_text s sub

-- strings.Split(s, sep)[0] for a separator that is not empty: what stands before its first
-- occurrence, and all of s where it does not occur.
unfoldable pub first_part : String → String → String
unfolding has_prefix
first_part String.[] sep = String.[]
first_part (String.◌∷◌ c s) sep =
    let rest = first_part s sep in
    if has_prefix (String.◌∷◌ c s) sep then String.[] else String.◌∷◌ c rest
