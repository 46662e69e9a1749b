-- ===== src/Model/Identity/Keys.antt =====
-- internal/model/identity.go: canonical keys and route ids.
use Prim.Native.Char.{code}
use Prim.Native.String.{len}
use Prim.Native.String.{◌++◌ as append}
use free_model_router.Model.Identity.{is_alnum, is_rest, matches_provider}
use free_model_router.Prelude.Affix.{starts_with}
use free_model_router.Prelude.Text.{str_eq}
use free_model_router.Prelude.{
  Bool, true, false, not, ◌&&◌, ◌||◌, String, Result, ok, err, ltb, ◌==◌, if◌then◌else◌,
}

-- `[a-z0-9._-]*`
unfoldable pub matches_key_rest : String → Bool
matches_key_rest String.[] = true
matches_key_rest (String.◌∷◌ c s) = (is_rest (code c) || (code c == b'.')) && matches_key_rest s

-- the regular expression `^[a-z0-9][a-z0-9._-]*$`
unfoldable pub matches_key : String → Bool
unfolding matches_key_rest
matches_key String.[] = false
matches_key (String.◌∷◌ c s) = is_alnum (code c) && matches_key_rest s

abbrev pub checked_key : String → Result String
checked_key s =
    if str_eq s ""
    then err "canonical model key must not be empty"
    else if ltb 128 (len s)
    then err "canonical model key too long"
    else if not (matches_key s)
    then err "invalid canonical model key"
    else ok s

-- `NewCanonicalModelKey`; the case and the spaces of package strings are parameters.
unfoldable pub new_canonical_model_key :
    (String → String) → (String → String) → String → Result String
unfolding matches_key
new_canonical_model_key to_lower trim_space s = checked_key (to_lower (trim_space s))

-- `strings.Contains(s, "::")`
unfoldable pub contains_colons : String → Bool
contains_colons String.[] = false
contains_colons (String.◌∷◌ c s) =
    let rest = contains_colons s in starts_with "::" (String.◌∷◌ c s) || rest

-- `NewRouteID`
unfoldable pub new_route_id : String → String → Result String
unfolding contains_colons
new_route_id route_name mdl =
    if not (matches_provider route_name)
    then err "invalid route name"
    else if str_eq mdl ""
    then err "route model part must not be empty"
    else if contains_colons mdl
    then err "route model part must not contain ::"
    else ok (append route_name (append "::" mdl))
