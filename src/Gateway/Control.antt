-- ===== src/Gateway/Control.antt =====
-- internal/gateway/control.go: the writes of the control plane to the pool, the catalog and the pinned
-- model of a gateway. `New` never leaves the pool nil. A write returns the state after it beside
-- Go's pair of a result and an error.
pub mod Optimistic
pub mod Writes
pub mod Restore
pub mod Pinned
use free_model_router.Prelude.Int.{ℤ, eq_ℤ, suc_int64}
use free_model_router.Prelude.Dict.{Dict, lookup, assign}
use free_model_router.Prelude.Text.{str_eq, str_lt}
use free_model_router.Model.Route.{ProviderModelId, ProviderRoute, selected_by_default}
use free_model_router.Model.Snapshot.{CatalogSnapshot, entries}
use free_model_router.Model.Identity.{parse}
use free_model_router.Catalog.Pool.{
  PoolMode, ModelPoolConfig, PoolState, RouteMap, contains, select_all, clear_all, replace,
  remove_ids, manual, automatic, empty, routes_or_nil,
}
use free_model_router.Catalog.Store.{Store, mutate, refresh}
use free_model_router.Catalog.Reconcile.{in_catalog}
use free_model_router.Prelude.{
  ℕ, zero, suc, ◌+◌, ◌-◌, ◌*◌, ◌/◌, ◌%◌, ◌^◌, ◌≤◌, ◌<◌, String, ◌≡◌, refl, sym, ap, ◌∙◌, ◌≢◌, ◌↔◌,
  ◌⊎◌, inl, inr, Bool, true, false, not, ◌&&◌, ◌||◌, Option, none, some, List, [], ◌∷◌, ◌++◌, arith,
  ltb, leb, ◌==◌, if◌then◌else◌, Bool-cases, Option-cases, &&_iff, bool_ext, Result, ok, err,
  Result-cases, length, All, length-append, All-append, In, In-append_left, In-append_right,
  In-append_cases, All-In,
}
use free_model_router.Router.Rank.Sort.{sort_stable}

pub record Control : Type 0 where
  pub pool : Store
  pub catalog : Option CatalogSnapshot
  pub routes : Dict (List ProviderRoute)
  pub pinned_model : ProviderModelId

abbrev pub config_of : Control → ModelPoolConfig
config_of c = c.pool.pool.config

-- `PoolMutation`; a nil mode is `none`.
pub record PoolMutation : Type 0 where
  pub select : List ProviderModelId
  pub deselect : List ProviderModelId
  pub select_all : Bool
  pub clear_all : Bool
  pub mode : Option PoolMode

-- The `routes` map as the function that the pool reads.
abbrev pub route_map : Dict (List ProviderRoute) → RouteMap
route_map routes id = routes_or_nil (lookup id routes)

-- `addUniqueIDs`: `seen` holds what `base` holds.
unfoldable pub add_unique_ids : List ProviderModelId → List ProviderModelId → List ProviderModelId
add_unique_ids base [] = base
add_unique_ids base (id ∷ additions) =
    add_unique_ids (if not (str_eq id "") && not (contains base id) then base ++ id ∷ [] else base)
      additions

abbrev pub is_nonempty : List ProviderModelId → Bool
is_nonempty [] = false
is_nonempty (id ∷ ids) = true

-- `removeIDs`
unfoldable pub remove_listed : List ProviderModelId → List ProviderModelId → List ProviderModelId
remove_listed base removals = if not (is_nonempty removals) then base else remove_ids base removals

-- The mode that the default case of the mutation asks for.
abbrev pub given_mode : Option PoolMode → PoolMode → PoolMode
given_mode none m = m
given_mode (some g) m = g

unfoldable pub mutation_mode : PoolMutation → PoolMode → PoolMode
mutation_mode m current =
    given_mode m.mode (if is_nonempty m.select || is_nonempty m.deselect then manual else current)

-- `pool.Mutate` around `Replace`, which changes nothing where it fails.
abbrev replaced : Store → Result PoolState → Result Store
replaced s (ok p) = ok (mutate s (λ q. p))
replaced s (err e) = err e

unfoldable pub replace_in : Store → List ProviderModelId → PoolMode → Result Store
unfolding mutate
replace_in s ids m = replaced s (replace s.pool ids m)

-- the callback that `UpdateModelPool` passes to `Mutate`
unfoldable pub apply_mutation : Control → PoolMutation → Result Store
unfolding mutate
apply_mutation c m =
    if m.select_all
    then ok (mutate c.pool (λ p. select_all p c.catalog (route_map c.routes)))
    else if m.clear_all
    then ok (mutate c.pool clear_all)
    else replace_in c.pool (remove_listed (add_unique_ids c.pool.pool.selected m.select) m.deselect)
        (mutation_mode m c.pool.pool.mode)

-- A pinned model that the pool no longer selects is unpinned.
unfoldable pub unpin_missing : Control → Control
unpin_missing c =
    if not (str_eq c.pinned_model "") && not (contains c.pool.pool.selected c.pinned_model)
    then record c { pinned_model = "" }
    else c

abbrev returned : Control → Control × Result ModelPoolConfig
returned c = (c, ok (config_of c))

abbrev settle : Control → Result Store → Control × Result ModelPoolConfig
settle c (err e) = (c, err e)
settle c (ok s) = returned (unpin_missing (record c { pool = s }))

abbrev pub is_current : Control → ℤ → Bool
is_current c expected = eq_ℤ c.pool.pool.revision expected

-- `UpdateModelPool`
unfoldable pub update_model_pool : Control → ℤ → PoolMutation → Control × Result ModelPoolConfig
unfolding unpin_missing
update_model_pool c expected m =
    if not (is_current c expected)
    then (c, err "model pool revision conflict")
    else if m.select_all && m.clear_all
    then (c, err "selectAll and clearAll are mutually exclusive")
    else if (m.select_all || m.clear_all) && (is_nonempty m.select || is_nonempty m.deselect)
    then (c, err "bulk and item pool operations cannot be combined")
    else settle c (apply_mutation c m)

-- `ReplaceModelPool`
unfoldable pub replace_model_pool :
    Control → ℤ → List ProviderModelId → PoolMode → Control × Result ModelPoolConfig
unfolding unpin_missing
replace_model_pool c expected selected m =
    if not (is_current c expected)
    then (c, err "model pool revision conflict")
    else settle c (replace_in c.pool selected m)

-- `p.Config.Revision++`
abbrev bump_revision : PoolState → PoolState
bump_revision p = record p { config = record p.config { revision = suc_int64 p.revision } }

-- `PinModel` once the revision is the current one
unfoldable pub pin_known :
    Control → Option CatalogSnapshot → ProviderModelId → Control × Result ModelPoolConfig
unfolding mutate
pin_known c none id = (c, err "control model not found")
pin_known c (some snap) id =
    if not (in_catalog (entries snap.models) id) || not (contains c.pool.pool.selected id)
    then (c, err "control model not found")
    else returned (record c { pinned_model = id; pool = mutate c.pool bump_revision })

-- `PinModel` under the lock
unfoldable pub pin_checked : Control → ℤ → ProviderModelId → Control × Result ModelPoolConfig
pin_checked c expected id =
    if not (is_current c expected)
    then (c, err "model pool revision conflict")
    else pin_known c c.catalog id

abbrev pin_parsed :
    Control → ℤ → ProviderModelId → Result (String × String) → Control × Result ModelPoolConfig
pin_parsed c expected id (err e) = (c, err "control model not found")
pin_parsed c expected id (ok p) = pin_checked c expected id

-- `PinModel`
unfoldable pub pin_model : Control → ℤ → ProviderModelId → Control × Result ModelPoolConfig
pin_model c expected id = pin_parsed c expected id (parse id)

-- the callback that `AutoSelect` passes to `Mutate`
unfoldable pub auto_selected : Control → Option CatalogSnapshot → Result Store
unfolding mutate
auto_selected c none = replace_in c.pool c.pool.pool.selected automatic
auto_selected c (some snap) =
    ok (mutate c.pool (λ p. select_all p (some snap) (route_map c.routes)))

abbrev kept_or_returned : Control → Result Store → Control × Result ModelPoolConfig
kept_or_returned c (err e) = (c, err e)
kept_or_returned c (ok s) = returned (record c { pool = s })

-- `AutoSelect`
unfoldable pub auto_select : Control → ℤ → Control × Result ModelPoolConfig
auto_select c expected =
    if not (is_current c expected)
    then (c, err "model pool revision conflict")
    else let unpinned = record c { pinned_model = "" } in
      kept_or_returned unpinned (auto_selected unpinned c.catalog)
