-- ===== src/Catalog/Pool.antt =====
-- internal/catalog/pool.go. A method that mutates `*PoolState` returns the new state. `Config` is
-- never nil in a state that `NewPoolState` built, and the two deep copies are the value itself.
pub mod Selection
use free_model_router.Prelude.{
  Bool, true, false, not, ◌&&◌, String, Option, none, some, List, [], ◌∷◌, ◌++◌, Result, ok, err,
  if◌then◌else◌,
}
use free_model_router.Prelude.Int.{ℤ, pos, suc_int64, ltb_ℤ}
use free_model_router.Prelude.Dict.{Dict, delete}
use free_model_router.Prelude.Text.{str_eq}
use free_model_router.Model.Access.{auto_routable}
use free_model_router.Model.Route.{
  ProviderModelId, ProviderModel, ProviderRoute, effective_access, selected_by_default,
}
use free_model_router.Model.Snapshot.{CatalogSnapshot, entries}

-- `PoolMode` is a string in Go: `empty` is "", `other` any value that is none of the constants.
pub data PoolMode : Type 0 where
  automatic manual empty : PoolMode
  other : String → PoolMode

pub record ModelPoolConfig : Type 0 where
  pub revision : ℤ
  pub mode : PoolMode
  pub selected : List ProviderModelId

pub record PoolState : Type 0 where
  pub config : ModelPoolConfig
  pub open config use *
  pub tombstones : Dict Bool

abbrev pub is_valid_mode : PoolMode → Bool
is_valid_mode automatic = true
is_valid_mode manual = true
is_valid_mode _ = false

abbrev pub is_automatic : PoolMode → Bool
is_automatic automatic = true
is_automatic _ = false

-- `(*ModelPoolConfig).Validate`
unfoldable pub validate : ModelPoolConfig → Result (Unit {0})
validate c =
    if ltb_ℤ c.revision (pos 0)
    then err "negative pool revision"
    else if is_valid_mode c.mode
    then ok tt
    else err "invalid pool mode"

-- The loop of `(*ModelPoolConfig).Contains` over the selected ids.
unfoldable pub contains : List ProviderModelId → ProviderModelId → Bool
contains [] id = false
contains (s ∷ rest) id = if str_eq s id then true else contains rest id

-- `NewPoolState`
abbrev pub new_pool_state : Option ModelPoolConfig → PoolState
new_pool_state (some c) = record { config = c; tombstones = [] }
new_pool_state none = record {
  config = record { revision = pos 0; mode = automatic; selected = [] };
  tombstones = [];
}

abbrev pub set_config : PoolState → List ProviderModelId → PoolMode → PoolState
set_config p ids m = record p {
  config = record { revision = suc_int64 p.revision; mode = m; selected = ids };
}

-- `if !Contains(id) { append }`
unfoldable pub add_id : List ProviderModelId → ProviderModelId → List ProviderModelId
add_id sel id = if contains sel id then sel else sel ++ id ∷ []

unfoldable pub add_ids : List ProviderModelId → List ProviderModelId → List ProviderModelId
unfolding add_id
add_ids sel [] = sel
add_ids sel (id ∷ ids) = add_ids (add_id sel id) ids

unfoldable pub delete_all : List ProviderModelId → Dict Bool → Dict Bool
delete_all [] t = t
delete_all (id ∷ ids) t = delete_all ids (delete id t)

-- `(*PoolState).Select`
unfoldable pub select : PoolState → List ProviderModelId → PoolState
select p ids =
    set_config (record p { tombstones = delete_all ids p.tombstones }) (add_ids p.selected ids)
      manual

-- the loop of `Deselect` that keeps what is not in `ids`
unfoldable pub remove_ids : List ProviderModelId → List ProviderModelId → List ProviderModelId
remove_ids [] ids = []
remove_ids (s ∷ rest) ids =
    let kept = remove_ids rest ids in if contains ids s then kept else s ∷ kept

-- `(*PoolState).Deselect`
unfoldable pub deselect : PoolState → List ProviderModelId → PoolState
deselect p ids = set_config p (remove_ids p.selected ids) manual

-- `routes[id]`: a missing key reads as no routes.
abbrev pub routes_or_nil : Option (List ProviderRoute) → List ProviderRoute
routes_or_nil none = []
routes_or_nil (some rs) = rs

-- `hasAutoRoutableRoute`
unfoldable pub has_auto_routable_route : List ProviderRoute → Bool
has_auto_routable_route [] = false
has_auto_routable_route (r ∷ rs) =
    if r.enabled && auto_routable (effective_access r) then true else has_auto_routable_route rs

-- `hasDefaultSelectedRoute`
unfoldable pub has_default_selected_route : List ProviderRoute → Bool
has_default_selected_route [] = false
has_default_selected_route (r ∷ rs) =
    if r.enabled && selected_by_default r then true else has_default_selected_route rs

abbrev pub RouteMap : Type 0
RouteMap = ProviderModelId → List ProviderRoute

-- the loop of `SelectAll` over the catalog
unfoldable pub include_auto :
    RouteMap → List ProviderModelId → Dict ProviderModel → List ProviderModelId
include_auto routes sel [] = sel
include_auto routes sel ((id, m) ∷ rest) =
    include_auto routes
      (if not (contains sel id) && has_auto_routable_route (routes id) then sel ++ id ∷ [] else sel)
      rest

abbrev pub catalog_entries : Option CatalogSnapshot → Dict ProviderModel
catalog_entries none = []
catalog_entries (some s) = entries s.models

-- `(*PoolState).SelectAll`
unfoldable pub select_all : PoolState → Option CatalogSnapshot → RouteMap → PoolState
select_all p catalog routes =
    set_config (record p { tombstones = [] })
      (include_auto routes p.selected (catalog_entries catalog)) automatic

-- `(*PoolState).ClearAll`
unfoldable pub clear_all : PoolState → PoolState
clear_all p = set_config (record p { tombstones = [] }) [] manual

abbrev pub default_mode : PoolMode → PoolMode
default_mode empty = automatic
default_mode m = m

-- `(*PoolState).Replace`
unfoldable pub replace : PoolState → List ProviderModelId → PoolMode → Result PoolState
replace p ids m =
    if is_valid_mode (default_mode m)
    then ok (set_config (record p { tombstones = [] }) ids (default_mode m))
    else err "invalid pool mode"
