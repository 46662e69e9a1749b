-- ===== src/Model/Identity/RoundTrip.antt =====
-- A provider model id splits into the segments that it was built from.
use Prim.Native.String.append
use Prim.Native.String.{◌++◌ as append}
use Prim.Native.Char.{Char}
use free_model_router.Prelude.{
  ◌≡◌, refl, true, false, String, some, ok, arith, ap, ◌∙◌, Bool-cases, inl, inr,
}
use free_model_router.Prelude.Text.{str_eq, str_eq→eq}
use free_model_router.Model.Identity.{
  matches_rest, matches_provider, split_slash, new_provider_model_id, parse,
}

abbrev slash : Char
slash = "/"

append-slash : (b : String) → append "/" b ≡ String.◌∷◌ slash b
append-slash b = append.cons slash "" b ∙ ap (String.◌∷◌ slash) (append.nil b)

split_slash-slash : (b : String) → split_slash (String.◌∷◌ slash b) ≡ some ("", b)
unfolding split_slash
split_slash-slash b = refl

split_slash-append :
    (a b : String) → matches_rest a ≡ true → split_slash (append a (append "/" b)) ≡ some (a, b)
unfolding matches_rest split_slash
split_slash-append String.[] b h =
    ap split_slash (append.nil (append "/" b) ∙ append-slash b) ∙ split_slash-slash b
split_slash-append (String.◌∷◌ c s) b h =
    ground (arith, split_slash-append s b, append.cons c s (append "/" b))

pub matches_provider-matches_rest : (p : String) → matches_provider p ≡ true → matches_rest p ≡ true
unfolding matches_provider
matches_provider-matches_rest String.[] h = cc
matches_provider-matches_rest (String.◌∷◌ c s) h = ground arith

matches_provider-ne-empty : (p : String) → matches_provider p ≡ true → str_eq p "" ≡ false
unfolding matches_provider
matches_provider-ne-empty String.[] h = cc
matches_provider-ne-empty (String.◌∷◌ c s) h = elim (Bool-cases (str_eq (String.◌∷◌ c s) "")) [
  | inl e ↦ cc (str_eq→eq (String.◌∷◌ c s) "" e)
  | inr e ↦ e
]

-- Every provider model id that the constructor accepts is split by `Parse` into exactly the
-- provider and the model segment that it was built from.
pub parse-new_provider_model_id :
    (prov mdl id : String) → new_provider_model_id prov mdl ≡ ok id → parse id ≡ ok (prov, mdl)
unfolding parse new_provider_model_id
parse-new_provider_model_id prov mdl id h = ground (
  arith,
  matches_provider-matches_rest prov,
  matches_provider-ne-empty prov,
  split_slash-append prov mdl,
)
