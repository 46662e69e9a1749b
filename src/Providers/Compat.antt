-- ===== src/Providers/Compat.antt =====
-- internal/providers/openaicompat: a configured endpoint, whose client is that of OpenCode behind a transport that adds
-- the credential of this endpoint; and the routes that internal/app/providers.go builds for it. The parsing of addresses
-- and numbers is a parameter.
pub mod Own
pub mod Merged
use Prim.Native.String.{◌++◌ as append}
use free_model_router.Config.{ProviderConfig, auto_probe_enabled, model_excluded}
use free_model_router.Gateway.Errors.{Error, nil, plain, wrapped}
use free_model_router.Model.Access.{unknown}
use free_model_router.Model.Capability.{Capabilities}
use free_model_router.Model.Identity.{new_provider_model_id, parse}
use free_model_router.Model.Identity.Keys.{new_route_id}
use free_model_router.Model.Route.{ProviderModel, ProviderRoute}
use free_model_router.Model.Snapshot.{CatalogSnapshot, entries}
use free_model_router.Prelude.Dict.{Dict, lookup, assign}
use free_model_router.Prelude.Text.{str_eq}
use free_model_router.Prelude.Int.{pos}
use free_model_router.Prelude.Affix.{ends_with, trim_right}
use free_model_router.Prelude.{
  ℕ, String, Bool, true, false, not, ◌&&◌, ◌||◌, Option, none, some, List, [], ◌∷◌, Result, ok, err,
  if◌then◌else◌,
}
use free_model_router.Providers.Wire.{Outcome, returned, failed, NormalizedRequest, ChatRequest}
use free_model_router.Providers.Http.{Exchange, HttpRequest, ChatCall, refused}
use free_model_router.Providers.Opencode.{OpencodeProvider, is_slash, opencode_chat}

-- `Provider`, with what its credential resolver gives
pub record CompatProvider : Type 0 where
  pub id : String
  pub base_url : String
  pub resolve : Outcome String

-- The parts of the client of OpenCode that this one sets: no filter on free models, no other address for
-- authenticated routes. `key` is what the environment holds for OpenCode.
abbrev pub backend : CompatProvider → String → OpencodeProvider
backend p key = record {
  base_url = trim_right is_slash p.base_url;
  auth_base_override = "";
  native_free_only = false;
  credential = returned key;
}

-- `bearerTransport.RoundTrip`: what goes to the network, or the error of the resolver.
unfoldable pub round_trip :
    {P : Type 0} → (String → String) → Outcome String → HttpRequest P → Outcome (HttpRequest P)
round_trip trim_space (failed e) h = failed (wrapped "resolve provider credential" e)
round_trip trim_space (returned key) h =
    if str_eq (trim_space key) "" then returned h else returned (record h { bearer = some key })

-- A price that is not zero, by `json.Unmarshal` and `strconv.ParseFloat`.
unfoldable pub all_zero : (String → Bool) → Dict String → Bool
all_zero is_zero [] = true
all_zero is_zero ((name, raw) ∷ prices) =
    let rest = all_zero is_zero prices in if is_zero raw then rest else false

abbrev pub has_price : Dict String → Bool
has_price [] = false
has_price (p ∷ ps) = true

-- `openRouterFreeModel`
unfoldable pub open_router_free_model :
    (String → String) → (String → Bool) → String → Dict String → Bool
unfolding all_zero
open_router_free_model lower_trimmed is_zero id pricing =
    if str_eq (lower_trimmed id) "openrouter/free" || ends_with ":free" (lower_trimmed id)
    then true
    else if not (has_price pricing)
    then false
    else all_zero is_zero pricing

abbrev pub renamed :
    Dict ProviderModel → ProviderModel → Result String → Result (Dict ProviderModel)
renamed out pm (err e) = err e
renamed out pm (ok id) = elim (lookup id out) [
  | some taken ↦ err "provider model ID collision"
  | none ↦ ok (assign id (record pm { id = id }) out)
]

abbrev pub rename_parsed :
    String
    → Dict ProviderModel
    → ProviderModel
    → Result (String × String)
    → Result (Dict ProviderModel)
rename_parsed id out pm (err e) = err "backend returned invalid model id"
rename_parsed id out pm (ok p) = renamed out pm (new_provider_model_id id p.1)

abbrev pub then_rename :
    Result (Dict ProviderModel)
    → (Dict ProviderModel → Result (Dict ProviderModel))
    → Result (Dict ProviderModel)
then_rename (err e) next = err e
then_rename (ok out) next = next out

-- The loop of `DiscoverModels`
unfoldable pub rename_all :
    String → Dict ProviderModel → Dict ProviderModel → Result (Dict ProviderModel)
rename_all id out [] = ok out
rename_all id out ((key, pm) ∷ models) =
    then_rename (rename_parsed id out pm (parse pm.id)) (λ o. rename_all id o models)

abbrev pub renamed_snapshot :
    CatalogSnapshot → Result (Dict ProviderModel) → Outcome CatalogSnapshot
renamed_snapshot s (err e) = failed (plain e)
renamed_snapshot s (ok models) =
    returned (record { revision = pos 0; created_at = s.created_at; models = some models })

-- `Provider.DiscoverModels`, of what the backend gives
unfoldable pub compat_discover : String → Outcome CatalogSnapshot → Outcome CatalogSnapshot
unfolding rename_all
compat_discover id (failed e) = failed e
compat_discover id (returned s) = renamed_snapshot s (rename_all id [] (entries s.models))

module _ {M F P : Type 0} (trim_space : String → String)
    (marshal : ChatRequest M F → Outcome P) where
  -- `Provider.ChatCompletion`: the call before the transport.
  unfoldable pub compat_chat :
      CompatProvider → String → ProviderRoute → NormalizedRequest M F → Exchange → ChatCall P
  compat_chat p key r req x =
      if not (str_eq r.provider p.id)
      then refused (plain "route belongs to another provider")
      else opencode_chat trim_space marshal (backend p key) r req x

abbrev pub all_features : Capabilities
all_features = record {
  streaming = true;
  tools = true;
  vision = true;
  structured_output = true;
  reasoning = true;
  unknown = 0;
  context_length = pos 0;
  max_output = pos 0;
}

abbrev pub generic_route :
    ProviderConfig → ProviderModel → Result String → Result (List ProviderRoute)
generic_route c pm (err e) = err e
generic_route c pm (ok id) = ok (
    record {
      id = id;
      model_id = pm.id;
      provider = c.id;
      upstream_model_id = pm.upstream_id;
      credential_id = c.id;
      access = unknown;
      capability_override = some all_features;
      enabled = not (model_excluded c pm.upstream_id);
      auto_route_allowed = some (not (model_excluded c pm.upstream_id));
      probe_allowed =
          some (auto_probe_enabled c.auto_probe && not (model_excluded c pm.upstream_id));
      default_selected = some (not (model_excluded c pm.upstream_id));
    }
    ∷ [])

-- `genericRoutes` of internal/app/providers.go
unfoldable pub generic_routes : ProviderConfig → ProviderModel → Result (List ProviderRoute)
unfolding new_route_id model_excluded
generic_routes c pm = generic_route c pm (new_route_id c.id pm.upstream_id)
