-- ===== src/Matcher.antt =====
-- internal/matcher/matcher.go: binding provider models to benchmark records. Confidences are floats, whose
-- order is a parameter, as are the character classes of package unicode, the case and space functions of
-- package strings, and the replacement by nothing of what the two regular expressions of package regexp match.
pub mod Choice
pub mod Agree
pub mod Family
pub mod Pick
pub mod Seen
pub mod Unique
use Prim.Native.String.{len}
use Prim.Native.Char.{Char, code}
use free_model_router.Prelude.Text.{str_eq, str_lt}
use free_model_router.Prelude.Dict.{Dict, assign}
use free_model_router.Model.Identity.{parse}
use free_model_router.Model.Route.{ProviderModel, ProviderModelId}
use free_model_router.Catalog.Pool.{contains}
use free_model_router.Scoring.{BenchmarkModel}
use free_model_router.Prelude.{
  ℕ, zero, suc, ◌+◌, ◌-◌, ◌*◌, ◌/◌, ◌%◌, ◌^◌, ◌≤◌, ◌<◌, String, ◌≡◌, refl, sym, ap, ◌∙◌, ◌≢◌, ◌↔◌,
  ◌⊎◌, inl, inr, Bool, true, false, not, ◌&&◌, ◌||◌, Option, none, some, List, [], ◌∷◌, ◌++◌, arith,
  ltb, leb, ◌==◌, if◌then◌else◌, Bool-cases, Option-cases, &&_iff, bool_ext, Result, ok, err,
  Result-cases, length, All, length-append, All-append, In, In-append_left, In-append_right,
  In-append_cases, All-In,
}

-- `MatchMethod`
pub data MatchMethod : Type 0 where
  match_none match_exact match_family match_variant : MatchMethod

-- `BenchmarkBinding`
pub record BenchmarkBinding (F : Type 0) : Type 0 where
  pub canonical_model_key : String
  pub source_model_id : String
  pub confidence : F
  pub match_method : MatchMethod

-- `Matcher`
pub record Matcher (F : Type 0) : Type 0 where
  pub exact_confidence : F
  pub family_confidence : F
  pub variant_confidence : F

pub record TextOps : Type 0 where
  pub trim_space : String → String
  pub to_lower : String → String
  pub is_letter : Char → Bool
  pub is_number : Char → Bool
  pub drop_date : String → String
  pub drop_deployment : String → String

-- The rank that `matchMethod` returns beside a method, with 0 for its -1.
abbrev pub rank_of : MatchMethod → ℕ
rank_of match_none = 0
rank_of match_exact = 3
rank_of match_family = 2
rank_of match_variant = 1

abbrev pub dash : Char
dash = "-"

abbrev pub is_dash : Char → Bool
is_dash c = code c == b'-'

-- The loop of `normalize`: what is not kept becomes one dash between what is. The flags say whether a
-- separator is pending and whether anything was written.
unfoldable pub normalize_loop : (Char → Bool) → Bool → Bool → String → String
normalize_loop kept separator written String.[] = String.[]
normalize_loop kept separator written (String.◌∷◌ c s) =
    let after = normalize_loop kept false true s in
    let skipped = normalize_loop kept true written s in
    if kept c
    then (if separator && written then String.◌∷◌ dash (String.◌∷◌ c after) else String.◌∷◌ c after)
    else skipped

-- The tokens between dashes, `strings.Split(s, "-")`.
abbrev pub onto_first : Char → List String → List String
onto_first c [] = String.◌∷◌ c String.[] ∷ []
onto_first c (t ∷ ts) = String.◌∷◌ c t ∷ ts

unfoldable pub split_dashes : String → List String
split_dashes String.[] = "" ∷ []
split_dashes (String.◌∷◌ c s) =
    let rest = split_dashes s in if is_dash c then "" ∷ rest else onto_first c rest

-- The number of tokens that two lists have in common at the front.
unfoldable pub common_tokens : List String → List String → ℕ
common_tokens (l ∷ ls) (r ∷ rs) =
    let rest = common_tokens ls rs in if str_eq l r then suc rest else 0
common_tokens ls rs = 0

-- `strings.Trim(s, "-")` has nothing to do: the loop writes a dash only between two kept characters.
module _ (t : TextOps) where
  abbrev pub is_kept : Char → Bool
  is_kept c = t.is_letter c || (t.is_number c || code c == b'.')

  -- `normalize`
  unfoldable pub normalize : String → String
  unfolding normalize_loop
  normalize s = normalize_loop is_kept false false (t.to_lower (t.trim_space s))

  -- The loop of `familyKey`; a round that changes the text shortens it.
  unfoldable pub strip_suffixes : ℕ → String → String
  strip_suffixes zero s = s
  strip_suffixes (suc n) s =
      let trimmed = t.drop_deployment (t.drop_date s) in
      let rest = strip_suffixes n trimmed in if str_eq trimmed s then s else rest

  -- `familyKey`
  unfoldable pub family_key : String → String
  unfolding normalize strip_suffixes
  family_key s = strip_suffixes (len (normalize s)) (normalize s)

  -- `variantMatch`
  unfoldable pub variant_match : String → String → Bool
  unfolding normalize split_dashes common_tokens
  variant_match left right =
      let ls = split_dashes (normalize left) in
      let rs = split_dashes (normalize right) in
      let common = common_tokens ls rs in
      let shorter = if ltb (length rs) (length ls) then length rs else length ls in
      if ltb (length ls) 2 || ltb (length rs) 2
      then false
      else leb 2 common && (common == shorter && not (length ls == length rs))

  -- `normalizedUnique`, with what was seen before
  unfoldable pub normalized_unique : List String → List String → List String
  unfolding normalize
  normalized_unique seen [] = []
  normalized_unique seen (v ∷ vs) =
      let name = normalize v in
      let skipped = normalized_unique seen vs in
      let rest = normalized_unique (name ∷ seen) vs in
      if str_eq name "" || contains seen name then skipped else name ∷ rest

  abbrev pub segment_of : Result (String × String) → List String
  segment_of (err e) = []
  segment_of (ok p) = p.1 ∷ []

  -- `providerNames`
  unfoldable pub provider_names : ProviderModel → List String
  unfolding normalized_unique
  provider_names pm =
      normalized_unique []
        (pm.canonical_key ∷ pm.upstream_id ∷ pm.display_name ∷ segment_of (parse pm.id))

  -- `benchmarkNames`
  unfoldable pub benchmark_names : BenchmarkModel → List String
  unfolding normalized_unique
  benchmark_names b = normalized_unique [] (b.canonical_model_key ∷ b.name ∷ b.aliases)

  -- Two nested loops that look for a pair.
  unfoldable pub any_right : (String → String → Bool) → String → List String → Bool
  any_right test left [] = false
  any_right test left (r ∷ rs) = if test left r then true else any_right test left rs

  unfoldable pub any_pair : (String → String → Bool) → List String → List String → Bool
  unfolding any_right
  any_pair test [] rights = false
  any_pair test (l ∷ lefts) rights =
      if any_right test l rights then true else any_pair test lefts rights

  abbrev pub same_name : String → String → Bool
  same_name l r = not (str_eq l "") && str_eq l r

  abbrev pub same_family : String → String → Bool
  same_family l r = not (str_eq l "") && (not (str_eq r "") && str_eq (family_key l) (family_key r))

  -- `matchMethod`
  unfoldable pub match_method : ProviderModel → BenchmarkModel → MatchMethod
  unfolding provider_names benchmark_names any_pair variant_match family_key normalize
  match_method pm b =
      let ls = provider_names pm in
      let rs = benchmark_names b in
      if not (str_eq pm.canonical_key "")
        && (not (str_eq b.canonical_model_key "")
            && str_eq (normalize pm.canonical_key) (normalize b.canonical_model_key))
      then match_exact
      else if any_pair same_name ls rs
      then match_exact
      else if any_pair same_family ls rs
      then match_family
      else if any_pair variant_match ls rs
      then match_variant
      else match_none

  -- The first family key of a list of names that is not empty.
  unfoldable pub first_family : List String → String
  unfolding family_key
  first_family [] = ""
  first_family (n ∷ ns) =
      let rest = first_family ns in if not (str_eq (family_key n) "") then family_key n else rest

  -- `bindingKey`
  unfoldable pub binding_key : ProviderModel → BenchmarkModel → String
  unfolding first_family provider_names
  binding_key pm b =
      if not (str_eq pm.canonical_key "")
      then pm.canonical_key
      else if not (str_eq b.canonical_model_key "")
      then b.canonical_model_key
      else first_family (provider_names pm)
