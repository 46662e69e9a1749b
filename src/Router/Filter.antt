-- ===== src/Router/Filter.antt =====
-- internal/router/filter.go: the eligibility chain.
pub mod Eligible
pub mod Routes
use free_model_router.Model.Access.{AccessClass, auto_routable, is_paid, is_unknown}
use free_model_router.Model.Capability.{RequestRequirements, supports}
use free_model_router.Model.Route.{
  ProviderModelId, ProviderModel, ProviderRoute, effective_access, allows_automatic_routing,
  effective_capabilities,
}
use free_model_router.Model.Snapshot.{CatalogSnapshot, entries}
use free_model_router.Catalog.Pool.{RouteMap, contains}
use free_model_router.Health.{Manager, available}
use free_model_router.Prelude.{
  ℕ, Bool, true, false, not, ◌&&◌, Option, none, some, List, [], ◌∷◌, ◌++◌, if◌then◌else◌,
}
use free_model_router.Prelude.Text.{str_eq}
use free_model_router.Prelude.Dict.{Dict, lookup}

pub record Candidate : Type 0 where
  pub model : ProviderModel
  pub route : ProviderRoute

-- The reasons that the source spells out as texts.
pub data Reason : Type 0 where
  not_in_catalog no_enabled_route capability_mismatch protocol_incompatible : Reason
  health_unavailable access_not_allowed : Reason

pub record Exclusion : Type 0 where
  pub id : ProviderModelId
  pub reason : Reason

pub record EligibilityResult : Type 0 where
  pub eligible : List Candidate
  pub excluded : List Exclusion

-- A nil pointer or function is `none`. `clock` is what `time.Now` reads when a route is asked about.
pub record FilterInput : Type 0 where
  pub explicit_id : ProviderModelId
  pub pool : List ProviderModelId
  pub catalog : Option CatalogSnapshot
  pub routes : RouteMap
  pub reqs : RequestRequirements
  pub allow_paid : Bool
  pub allow_unknown : Bool
  pub protocol_compatible : Option (ProviderRoute → Bool)
  pub health : Option Manager
  pub clock : ProviderRoute → ℕ

-- `routeAccessAllowed`
unfoldable pub route_access_allowed : AccessClass → Bool → Bool → Bool
route_access_allowed a allow_paid allow_unknown =
    if auto_routable a
    then true
    else if is_paid a
    then allow_paid
    else if is_unknown a
    then allow_unknown
    else false

-- `ids`: the explicit id wins over the pool.
unfoldable pub ids : FilterInput → List ProviderModelId
ids input = if str_eq input.explicit_id "" then input.pool else input.explicit_id ∷ []

abbrev pub protocol_vetoes : Option (ProviderRoute → Bool) → ProviderRoute → Bool
protocol_vetoes none route = false
protocol_vetoes (some ok_for) route = not (ok_for route)

abbrev pub health_vetoes : Option Manager → ProviderRoute → ℕ → Bool
health_vetoes none route now = false
health_vetoes (some m) route now = not (available m route.id now)

-- What the body of the loop over the routes does with one route.
pub data Verdict : Type 0 where
  skip : Verdict
  exclude : Reason → Verdict
  accept : Verdict

unfoldable pub judge : FilterInput → ProviderModel → ProviderRoute → Verdict
judge input pm route =
    if not route.enabled
    then skip
    else if not (supports (effective_capabilities route pm.base) input.reqs)
    then exclude capability_mismatch
    else if protocol_vetoes input.protocol_compatible route
    then exclude protocol_incompatible
    else if health_vetoes input.health route (input.clock route)
    then exclude health_unavailable
    else if not (allows_automatic_routing route)
        && not (route_access_allowed (effective_access route) input.allow_paid input.allow_unknown)
    then exclude access_not_allowed
    else accept

abbrev pub nothing : EligibilityResult
nothing = record { eligible = []; excluded = [] }

abbrev pub exclude_one : ProviderModelId → Reason → EligibilityResult
exclude_one id r = record { eligible = []; excluded = record { id = id; reason = r } ∷ [] }

-- The appends to both lists of the result, in order.
abbrev pub both : EligibilityResult → EligibilityResult → EligibilityResult
both a b = record { eligible = a.eligible ++ b.eligible; excluded = a.excluded ++ b.excluded }

abbrev pub outcome : Verdict → ProviderModelId → ProviderModel → ProviderRoute → EligibilityResult
outcome skip id pm route = nothing
outcome (exclude r) id pm route = exclude_one id r
outcome accept id pm route = record {
  eligible = record { model = pm; route = route } ∷ [];
  excluded = [];
}

-- the loop over the routes of one model
unfoldable pub filter_routes :
    FilterInput → ProviderModelId → ProviderModel → List ProviderRoute → EligibilityResult
filter_routes input id pm [] = nothing
filter_routes input id pm (route ∷ rest) =
    both (outcome (judge input pm route) id pm route) (filter_routes input id pm rest)

abbrev pub has_routes : List ProviderRoute → Bool
has_routes [] = false
has_routes (r ∷ rs) = true

-- the body of the loop over the ids, behind the test of `seen`
unfoldable pub filter_model :
    FilterInput → ProviderModelId → Option ProviderModel → EligibilityResult
filter_model input id none = exclude_one id not_in_catalog
filter_model input id (some pm) =
    if has_routes (input.routes id)
    then filter_routes input id pm (input.routes id)
    else exclude_one id no_enabled_route

unfoldable pub filter_ids :
    FilterInput
    → Dict ProviderModel
    → List ProviderModelId
    → List ProviderModelId
    → EligibilityResult
filter_ids input models seen [] = nothing
filter_ids input models seen (id ∷ rest) =
    let old = filter_ids input models seen rest in
    let new =
      both (filter_model input id (lookup id models)) (filter_ids input models (id ∷ seen) rest) in
    if contains seen id then old else new

-- `Filter`
abbrev pub filter_catalog : FilterInput → Option CatalogSnapshot → EligibilityResult
filter_catalog input none = nothing
filter_catalog input (some snap) = filter_ids input (entries snap.models) [] (ids input)

unfoldable pub filter : FilterInput → EligibilityResult
filter input = filter_catalog input input.catalog
