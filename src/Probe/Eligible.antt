-- ===== src/Probe/Eligible.antt =====
-- internal/probe/probe.go: the routes that a cycle probes.
use free_model_router.Prelude.Dict.{Dict, lookup}
use free_model_router.Health.{Manager}
use free_model_router.Catalog.Pool.{RouteMap, contains}
use free_model_router.Router.Filter.{health_vetoes}
use free_model_router.Model.Route.{ProviderModelId, ProviderModel, ProviderRoute, allows_probe}
use free_model_router.Model.Snapshot.{CatalogSnapshot, entries}
use free_model_router.Prelude.{
  ℕ, Bool, not, ◌&&◌, Option, none, some, List, [], ◌∷◌, ◌++◌, if◌then◌else◌,
}

-- `Target`
pub record Target : Type 0 where
  pub route : ProviderRoute
  pub model : ProviderModel

-- The guards of the inner loop of `EligibleTargets`; a nil health manager vetoes nothing. `clock`
-- is the time at which a route's health is read.
unfoldable pub is_probeable : Option Manager → (ProviderRoute → ℕ) → ProviderRoute → Bool
is_probeable h clock r = r.enabled && allows_probe r && not (health_vetoes h r (clock r))

unfoldable pub route_targets :
    Option Manager → (ProviderRoute → ℕ) → ProviderModel → List ProviderRoute → List Target
unfolding is_probeable
route_targets h clock pm [] = []
route_targets h clock pm (r ∷ rs) =
    let rest = route_targets h clock pm rs in
    if is_probeable h clock r then record { route = r; model = pm } ∷ rest else rest

abbrev pub model_targets :
    Option Manager → (ProviderRoute → ℕ) → Option ProviderModel → List ProviderRoute → List Target
model_targets h clock none rs = []
model_targets h clock (some pm) rs = route_targets h clock pm rs

-- The loop of `EligibleTargets` over the pool, with the ids seen before.
unfoldable pub pool_targets :
    Option Manager
    → (ProviderRoute → ℕ)
    → Dict ProviderModel
    → RouteMap
    → List ProviderModelId
    → List ProviderModelId
    → List Target
unfolding route_targets
pool_targets h clock models routes seen [] = []
pool_targets h clock models routes seen (id ∷ pool) =
    let skipped = pool_targets h clock models routes seen pool in
    let rest = pool_targets h clock models routes (id ∷ seen) pool in
    if contains seen id
    then skipped
    else model_targets h clock (lookup id models) (routes id) ++ rest

-- `EligibleTargets`
unfoldable pub eligible_targets :
    Option CatalogSnapshot
    → List ProviderModelId
    → RouteMap
    → Option Manager
    → (ProviderRoute → ℕ)
    → List Target
unfolding pool_targets
eligible_targets none pool routes h clock = []
eligible_targets (some snap) pool routes h clock =
    pool_targets h clock (entries snap.models) routes [] pool
