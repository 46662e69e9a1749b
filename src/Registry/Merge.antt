-- ===== src/Registry/Merge.antt =====
-- internal/providers/registry: what a provider offers, checked and merged into the catalog.
use free_model_router.Prelude.Dict.{Dict, lookup, assign}
use free_model_router.Prelude.Text.{str_eq}
use free_model_router.Prelude.Int.{ℤ}
use free_model_router.Model.Identity.{parse}
use free_model_router.Model.Route.{ProviderModelId, ProviderModel, ProviderRoute}
use free_model_router.Model.Snapshot.{CatalogSnapshot, entries}
use free_model_router.Model.Failure.{
  Failure, FailureClass, FailureScope, auth, rate_limited, timeout, network, server_error, protocol,
  provider, credential,
}
use free_model_router.Gateway.Errors.{Error, as_failure}
use free_model_router.Catalog.Reconcile.{is_some, ◌>>=◌}
use free_model_router.Prelude.{
  ℕ, String, Bool, true, false, not, ◌&&◌, Option, none, some, List, [], ◌∷◌, ◌++◌, ltb,
  if◌then◌else◌, Result, ok, err,
}

abbrev pub RouteBuilder : Type 0
RouteBuilder = ProviderModel → Result (List ProviderRoute)

-- `ProviderAvailability` of internal/provider/provider.go
pub record ProviderAvailability : Type 0 where
  pub id : String
  pub available : Bool
  pub error_code : String
  pub message : String

-- `RoutedCatalog` of internal/provider/provider.go, with its snapshot's fields
pub record RoutedCatalog : Type 0 where
  pub created_at : ℕ
  pub models : Dict ProviderModel
  pub routes : Dict (List ProviderRoute)
  pub providers : List ProviderAvailability

abbrev pub no_catalog : RoutedCatalog
no_catalog = record { created_at = 0; models = []; routes = []; providers = [] }

abbrev unavailable : String → String → String → Option ProviderAvailability
unavailable id code message =
    some (record { id = id; available = false; error_code = code; message = message })

-- the switch of `degradedAvailability`
abbrev pub by_class : String → FailureClass → Option ProviderAvailability
by_class id auth = unavailable id "PROVIDER_AUTH_REJECTED" "Provider credentials were rejected"
by_class id rate_limited =
    unavailable id "PROVIDER_RATE_LIMITED" "Provider catalog request was rate limited"
by_class id timeout =
    unavailable id "PROVIDER_DISCOVERY_TIMEOUT" "Provider catalog request timed out"
by_class id network =
    unavailable id "PROVIDER_NETWORK_UNAVAILABLE" "Provider catalog could not be reached"
by_class id server_error =
    unavailable id "PROVIDER_UPSTREAM_UNAVAILABLE" "Provider catalog service is unavailable"
by_class id protocol =
    unavailable id "PROVIDER_PROTOCOL_ERROR" "Provider returned an invalid catalog response"
by_class id _ = none

abbrev pub by_scope : String → FailureScope → FailureClass → Option ProviderAvailability
by_scope id provider c = by_class id c
by_scope id credential c = by_class id c
by_scope id _ c = none

abbrev pub degraded : String → Option (Failure × ℤ) → Option ProviderAvailability
degraded id none = none
degraded id (some f) = by_scope id f.0.scope f.0.class

-- `degradedAvailability`
unfoldable pub degraded_availability : String → Error → Option ProviderAvailability
degraded_availability id e = degraded id (as_failure e)

abbrev pub is_empty : List ProviderRoute → Bool
is_empty [] = true
is_empty (r ∷ rs) = false

-- The loop that checks the routes of a model.
unfoldable pub all_belong : ProviderModelId → String → List ProviderRoute → Bool
all_belong model_id id [] = true
all_belong model_id id (r ∷ rs) =
    str_eq r.model_id model_id && str_eq r.provider id && all_belong model_id id rs

abbrev pub checked_routes :
    String → ProviderModelId → Result (List ProviderRoute) → Result (List ProviderRoute)
checked_routes id model_id (err e) = err e
checked_routes id model_id (ok rs) =
    if is_empty rs
    then err "provider returned no routes"
    else if all_belong model_id id rs
    then ok rs
    else err "route does not belong to its model"

abbrev pub check_owner :
    String
    → Dict ProviderModel
    → ProviderModelId
    → Result (String × String)
    → Result (List ProviderRoute)
    → Result (List ProviderRoute)
check_owner id taken model_id (err e) built = err "provider returned a model outside its namespace"
check_owner id taken model_id (ok (owner, name)) built =
    if not (str_eq owner id)
    then err "provider returned a model outside its namespace"
    else if is_some (lookup model_id taken)
    then err "duplicate model"
    else checked_routes id model_id built

-- The body of the loop over a provider's models: the routes of one.
unfoldable pub check_model :
    String
    → RouteBuilder
    → Dict ProviderModel
    → ProviderModelId
    → ProviderModel
    → Result (List ProviderRoute)
unfolding all_belong
check_model id build taken model_id pm =
    if not (str_eq pm.id model_id)
    then err "provider returned a model with a mismatched id"
    else check_owner id taken model_id (parse model_id) (build pm)

-- `providerModels` and `providerRoutes`, which have the same keys
abbrev pub Accepted : Type 0
Accepted = Dict (ProviderModel × List ProviderRoute)

-- The loop over a provider's models.
unfoldable pub check_models :
    String → RouteBuilder → Dict ProviderModel → Accepted → Dict ProviderModel → Result Accepted
check_models id build taken acc [] = ok acc
check_models id build taken acc ((model_id, pm) ∷ rest) = do
  routes ← check_model id build taken model_id pm
  check_models id build taken (assign model_id (pm, routes) acc) rest

-- the loop that adds the models of a provider to the catalog
unfoldable pub merge_accepted : RoutedCatalog → Accepted → RoutedCatalog
merge_accepted out [] = out
merge_accepted out ((model_id, v) ∷ rest) =
    merge_accepted
      (record out {
        models = assign model_id v.0 out.models;
        routes = assign model_id v.1 out.routes;
      })
      rest

abbrev pub add_provider : RoutedCatalog → ProviderAvailability → RoutedCatalog
add_provider out a = record out { providers = out.providers ++ a ∷ [] }

abbrev pub later_time : ℕ → ℕ → ℕ
later_time a b = if ltb a b then b else a

abbrev pub add_accepted : RoutedCatalog → String → ℕ → Accepted → RoutedCatalog
add_accepted out id created acc =
    add_provider
      (merge_accepted (record out { created_at = later_time out.created_at created }) acc)
      (record { id = id; available = true; error_code = ""; message = "" })

abbrev pub degrade : RoutedCatalog → Option ProviderAvailability → Result RoutedCatalog
degrade out none = err "discover"
degrade out (some a) = ok (add_provider out a)

abbrev pub merge_snapshot :
    String → RouteBuilder → RoutedCatalog → Option CatalogSnapshot → Result RoutedCatalog
merge_snapshot id build out none = err "nil catalog"
merge_snapshot id build out (some snap) = do
  acc ← check_models id build out.models [] (entries snap.models)
  ok (add_accepted out id snap.created_at acc)
