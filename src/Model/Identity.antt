-- ===== src/Model/Identity.antt =====
-- internal/model/identity.go: provider model ids and route ids, built from and split into segments.
pub mod RoundTrip
pub mod Keys
use Prim.Native.String.{len}
use Prim.Native.String.{◌++◌ as append}
use Prim.Native.Char.{code}
use free_model_router.Prelude.{
  ℕ, Bool, true, false, not, ◌&&◌, ◌||◌, String, Option, none, some, Result, ok, err, ltb, leb,
  ◌==◌, if◌then◌else◌,
}
use free_model_router.Prelude.Text.{str_eq}

-- `[a-z0-9]`
abbrev pub is_alnum : ℕ → Bool
is_alnum c = (leb b'a' c && leb c b'z') || (leb b'0' c && leb c b'9')

-- `[a-z0-9_-]`
abbrev pub is_rest : ℕ → Bool
is_rest c = is_alnum c || (c == b'_') || (c == b'-')

unfoldable pub matches_rest : String → Bool
matches_rest String.[] = true
matches_rest (String.◌∷◌ c s) = is_rest (code c) && matches_rest s

-- the regular expression `^[a-z0-9][a-z0-9_-]*$`
unfoldable pub matches_provider : String → Bool
unfolding matches_rest
matches_provider String.[] = false
matches_provider (String.◌∷◌ c s) = is_alnum (code c) && matches_rest s

-- `strings.ContainsAny(s, "/\\")`
unfoldable pub contains_separator : String → Bool
contains_separator String.[] = false
contains_separator (String.◌∷◌ c s) = (code c == b'/') || (code c == b'\\') || contains_separator s

-- `NewProviderModelID`
unfoldable pub new_provider_model_id : String → String → Result String
unfolding matches_provider contains_separator
new_provider_model_id prov mdl =
    if not (matches_provider prov)
    then err "invalid provider segment"
    else if str_eq mdl ""
    then err "model segment must not be empty"
    else if contains_separator mdl
    then err "model segment must not contain path separators"
    else if ltb 256 (len (append prov (append "/" mdl)))
    then err "provider model id too long"
    else ok (append prov (append "/" mdl))

-- The text before and after the first '/', where there is one.
split_slash : String → Option (String × String)
split_slash String.[] = none
split_slash (String.◌∷◌ c s) =
    let rest = split_slash s in
    if code c == b'/'
    then some ("", s)
    else elim rest [ none ↦ none | some p ↦ some (String.◌∷◌ c p.0, p.1) ]

-- `i <= 0 || i == len(s)-1`: a segment is empty
check_segments : Option (String × String) → Result (String × String)
check_segments none = err "invalid ProviderModelID"
check_segments (some (a, b)) =
    if str_eq a ""
    then err "invalid ProviderModelID"
    else if str_eq b ""
    then err "invalid ProviderModelID"
    else ok (a, b)

-- `ProviderModelID.Parse`
unfoldable pub parse : String → Result (String × String)
unfolding split_slash check_segments
parse id = check_segments (split_slash id)
