-- ===== src/Gateway/Control/Restore.antt =====
-- internal/gateway/control.go: what a start restores from the configuration, and the refresh of the
-- catalog (internal/gateway/gateway.go) as a step on the state of the control plane.
use free_model_router.Router.Rank.Sort.{sort_stable}
use free_model_router.Gateway.Control.{Control, is_nonempty, replace_in, route_map}
use free_model_router.Catalog.Pool.{PoolMode, contains, manual, empty}
use free_model_router.Model.Route.{selected_by_default, ProviderRoute, ProviderModelId}
use free_model_router.Model.Snapshot.{CatalogSnapshot, entries}
use free_model_router.Catalog.Store.{Store, refresh}
use free_model_router.Prelude.Text.{str_lt, str_eq}
use free_model_router.Prelude.{
  ℕ, Bool, true, false, not, ◌&&◌, ◌||◌, Option, none, some, List, [], ◌∷◌, if◌then◌else◌, Result,
  ok, err,
}
use free_model_router.Prelude.Dict.{Dict, assign}
use free_model_router.Catalog.Reconcile.{in_catalog}

-- `chosen[id] = true` for what is selected
unfoldable pub choose_ids : Dict Bool → List ProviderModelId → Dict Bool
choose_ids chosen [] = chosen
choose_ids chosen (id ∷ ids) = choose_ids (assign id true chosen) ids

-- What the first route with an explicit default says.
unfoldable pub explicit_default : List ProviderRoute → Option Bool
unfolding selected_by_default
explicit_default [] = none
explicit_default (r ∷ rs) =
    let rest = explicit_default rs in
    elim r.default_selected [ none ↦ rest | some b ↦ some (r.enabled && selected_by_default r) ]

abbrev pub choose : Dict Bool → ProviderModelId → Option Bool → Dict Bool
choose chosen id none = chosen
choose chosen id (some b) = assign id b chosen

unfoldable pub choose_defaults : Dict Bool → Dict (List ProviderRoute) → Dict Bool
unfolding explicit_default
choose_defaults chosen [] = chosen
choose_defaults chosen ((id, rs) ∷ rest) =
    choose_defaults (choose chosen id (explicit_default rs)) rest

unfoldable pub included : Dict Bool → List ProviderModelId
included [] = []
included ((id, b) ∷ rest) = let ids = included rest in if b then id ∷ ids else ids

-- `applyGenericSelectionPolicy`
unfoldable pub apply_generic_selection_policy :
    Dict (List ProviderRoute) → List ProviderModelId → List ProviderModelId
unfolding choose_ids choose_defaults included
apply_generic_selection_policy routes selected =
    sort_stable str_lt (included (choose_defaults (choose_ids [] selected) routes))

-- The part of `RestoreControlState` that follows the pool's.
unfoldable pub restore_pin :
    Control → Option CatalogSnapshot → ProviderModelId → Control × Result (Unit {0})
restore_pin c none pinned =
    if str_eq pinned "" then (c, ok tt) else (c, err "control model not found")
restore_pin c (some snap) pinned =
    if str_eq pinned ""
    then (c, ok tt)
    else if not (contains c.pool.pool.selected pinned)
    then (c, err "control model not found")
    else if not (in_catalog (entries snap.models) pinned)
    then (c, err "control model not found")
    else (record c { pinned_model = pinned }, ok tt)

abbrev pub manual_if_empty : PoolMode → PoolMode
manual_if_empty empty = manual
manual_if_empty m = m

abbrev is_manual : PoolMode → Bool
is_manual manual = true
is_manual m = false

abbrev pub restore_pool : Control → Result Store → ProviderModelId → Control × Result (Unit {0})
restore_pool c (err e) pinned = (c, err e)
restore_pool c (ok s) pinned = restore_pin (record c { pool = s }) c.catalog pinned

-- `RestoreControlState`
unfoldable pub restore_control_state :
    Control → List ProviderModelId → PoolMode → ProviderModelId → Control × Result (Unit {0})
unfolding restore_pin
restore_control_state c selected m pinned =
    if is_nonempty selected || is_manual m
    then restore_pool c
        (replace_in c.pool (apply_generic_selection_policy c.routes selected) (manual_if_empty m))
        pinned
    else restore_pin c c.catalog pinned

abbrev refreshed : Control → Dict (List ProviderRoute) → Result Store → Control × Result (Unit {0})
refreshed c routes (err e) = (c, err e)
refreshed c routes (ok s) = (record c { pool = s; catalog = s.catalog; routes = routes }, ok tt)

-- The part of `RefreshCatalog` behind the discovery.
unfoldable pub refresh_catalog :
    Control → CatalogSnapshot → Dict (List ProviderRoute) → ℕ → Control × Result (Unit {0})
refresh_catalog c snap routes now = refreshed c routes (refresh c.pool snap (route_map routes) now)
