-- ===== src/Prelude/Affix.antt =====
-- Package strings: prefixes, and the characters at the end of a text.
use Prim.Native.String.{String, len}
use Prim.Native.Nat.{ℕ}
use Prim.Native.Char.{Char, code}
use mathlib.Core.Bool.{Bool, true, false, ◌&&◌}
use free_model_router.Prelude.Tests.{◌==◌}
use free_model_router.Prelude.{if◌then◌else◌, ltb}
use free_model_router.Prelude.Text.{str_eq}

-- `strings.HasPrefix`
unfoldable pub starts_with : String → String → Bool
starts_with String.[] s = true
starts_with (String.◌∷◌ p ps) String.[] = false
starts_with (String.◌∷◌ p ps) (String.◌∷◌ c s) =
    let rest = starts_with ps s in (code p == code c) && rest

-- `s[len(prefix):]`, for an s that has the prefix
unfoldable pub behind : String → String → String
behind String.[] s = s
behind (String.◌∷◌ p ps) String.[] = ""
behind (String.◌∷◌ p ps) (String.◌∷◌ c s) = behind ps s

abbrev is_end : String → Bool
is_end String.[] = true
is_end (String.◌∷◌ c s) = false

-- `strings.TrimRight`, with the characters of the set as a test
unfoldable pub trim_right : (Char → Bool) → String → String
trim_right cut String.[] = String.[]
trim_right cut (String.◌∷◌ c s) =
    let rest = trim_right cut s in if cut c && is_end rest then String.[] else String.◌∷◌ c rest

-- `strings.HasSuffix`
unfoldable pub ends_with : String → String → Bool
ends_with suffix String.[] = str_eq suffix ""
ends_with suffix (String.◌∷◌ c s) =
    let rest = ends_with suffix s in if str_eq suffix (String.◌∷◌ c s) then true else rest

-- `s[:len(s)-n]`
unfoldable pub without_last : ℕ → String → String
without_last n String.[] = String.[]
without_last n (String.◌∷◌ c s) =
    let rest = without_last n s in
    if ltb n (len (String.◌∷◌ c s)) then String.◌∷◌ c rest else String.[]
