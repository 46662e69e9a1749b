-- ===== src/Providers/Catalog.antt =====
-- internal/providers/*/provider.go: the models that an upstream lists. The decoding of the answer, base64 and the case
-- and spaces of package strings are parameters.
pub mod Discover
pub mod Listed
pub mod Faithful
use Prim.Native.Char.{Char, code}
use Prim.Native.String.{len}
use Prim.Native.String.{◌++◌ as append}
use free_model_router.Gateway.Errors.{Error, plain, wrapped, is_nil, is_deadline, new_failure_error}
use free_model_router.Model.Capability.{
  Capabilities, Capability, tools, vision, structured_output, reasoning, mark_unknown,
}
use free_model_router.Model.Failure.{
  FailureClass, new_failure, network, timeout, protocol, server_error, provider,
}
use free_model_router.Model.Identity.{new_provider_model_id, contains_separator}
use free_model_router.Model.Identity.Keys.{new_canonical_model_key}
use free_model_router.Model.Route.{ProviderModel}
use free_model_router.Model.Snapshot.{CatalogSnapshot}
use free_model_router.Prelude.Affix.{ends_with, without_last}
use free_model_router.Prelude.Dict.{Dict, lookup, assign}
use free_model_router.Prelude.Int.{ℤ, pos}
use free_model_router.Prelude.Text.{str_eq}
use free_model_router.Prelude.{
  ℕ, String, Bool, true, false, not, ◌&&◌, ◌||◌, Option, none, some, List, [], ◌∷◌, Result, ok, err,
  leb, ◌==◌, if◌then◌else◌,
}
use free_model_router.Providers.Wire.{Outcome, returned, failed}
use free_model_router.Providers.Http.{canceled_failure}
use free_model_router.Providers.Opencode.{is_verified_anonymous_free}

-- `catalogEntry`; a nil pointer is `none`, and a price is raw JSON.
pub record CatalogEntry : Type 0 where
  pub id : String
  pub context_length : ℤ
  pub max_output : ℤ
  pub streaming : Option Bool
  pub tools : Option Bool
  pub vision : Option Bool
  pub structured : Option Bool
  pub reasoning : Option Bool
  pub pricing : Dict String

-- `boolOr`
abbrev pub bool_or : Option Bool → Bool → Bool
bool_or none default = default
bool_or (some b) default = b

abbrev pub mark_if_nil : Option Bool → Capability → Capabilities → Capabilities
mark_if_nil none cap c = mark_unknown c cap
mark_if_nil (some b) cap c = c

-- What the entry says of its model, and what it leaves open.
unfoldable pub base_of : CatalogEntry → Capabilities
base_of e = mark_if_nil e.reasoning reasoning (
    mark_if_nil e.structured structured_output (
      mark_if_nil e.vision vision (
        mark_if_nil e.tools tools (record {
          streaming = bool_or e.streaming true;
          tools = bool_or e.tools false;
          vision = bool_or e.vision false;
          structured_output = bool_or e.structured false;
          reasoning = bool_or e.reasoning false;
          unknown = 0;
          context_length = e.context_length;
          max_output = e.max_output;
        }))))

-- What the client asks of package strings and base64.
pub record Coding : Type 0 where
  pub to_lower : String → String
  pub trim_space : String → String
  pub encode : String → String

module _ (k : Coding) where
  -- `providerModelSegment`
  unfoldable pub provider_model_segment : String → String
  provider_model_segment id =
      if not (contains_separator id) then id else append "b64-" (k.encode id)

  abbrev pub cut_suffix : String → String → String
  cut_suffix suffix s = if ends_with suffix (k.to_lower s) then without_last (len suffix) s else s

  -- `canonicalize`
  unfoldable pub canonicalize : String → String
  canonicalize id = k.to_lower (
      cut_suffix "-preview"
        (cut_suffix "-it" (cut_suffix "-free" (cut_suffix ":paid" (cut_suffix ":free" id)))))

  -- The text behind the first '/', where there is one.
  unfoldable pub behind_slash : String → Option String
  behind_slash String.[] = none
  behind_slash (String.◌∷◌ c s) =
      let rest = behind_slash s in if code c == b'/' then some s else rest

  abbrev pub text_or : String → Option String → String
  text_or s none = s
  text_or s (some t) = t

  -- `canonicalize` in nvidia
  unfoldable pub canonicalize_org : String → String
  unfolding canonicalize behind_slash
  canonicalize_org id = canonicalize (text_or id (behind_slash id))

  abbrev pub key_or_empty : Result String → String
  key_or_empty (ok key) = key
  key_or_empty (err e) = ""

  abbrev pub model_of : (String → String) → CatalogEntry → Result String → Option ProviderModel
  model_of canonical e (err reason) = none
  model_of canonical e (ok id) = some (record {
    id = id;
    canonical_key = key_or_empty (new_canonical_model_key k.to_lower k.trim_space (canonical e.id));
    display_name = e.id;
    base = base_of e;
    upstream_id = e.id;
  })

  -- The model of an entry, and `none` for one that the loop passes over; `keeps` is the filter of the client.
  unfoldable pub entry_model :
      (CatalogEntry → Bool) → (String → String) → String → CatalogEntry → Option ProviderModel
  unfolding provider_model_segment base_of
  entry_model keeps canonical provider_id e =
      if str_eq e.id "" || not (keeps e)
      then none
      else model_of canonical e (new_provider_model_id provider_id (provider_model_segment e.id))

  abbrev pub provider_failure : FailureClass → Error → Error
  provider_failure class cause = new_failure_error (new_failure class provider) cause

  abbrev pub store_model :
      Dict ProviderModel → ProviderModel → Option ProviderModel → Outcome (Dict ProviderModel)
  store_model models pm none = returned (assign pm.id pm models)
  store_model models pm (some existing) =
      if not (str_eq existing.upstream_id pm.upstream_id)
      then failed (provider_failure protocol (plain "provider model ID collision"))
      else returned (assign pm.id pm models)

  unfoldable pub add_model :
      Dict ProviderModel → Option ProviderModel → Outcome (Dict ProviderModel)
  add_model models none = returned models
  add_model models (some pm) = store_model models pm (lookup pm.id models)

  abbrev pub then_models :
      Outcome (Dict ProviderModel)
      → (Dict ProviderModel → Outcome (Dict ProviderModel))
      → Outcome (Dict ProviderModel)
  then_models (failed e) next = failed e
  then_models (returned models) next = next models

  -- The loop over the entries.
  unfoldable pub add_entries :
      (CatalogEntry → Option ProviderModel)
      → Dict ProviderModel
      → List CatalogEntry
      → Outcome (Dict ProviderModel)
  unfolding add_model
  add_entries entry models [] = returned models
  add_entries entry models (e ∷ es) =
      then_models (add_model models (entry e)) (λ ms. add_entries entry ms es)
