-- ===== src/Gateway/Control/Pinned.antt =====
-- The pinned model of the control plane is always one that the pool selects.
use free_model_router.Gateway.Control.{
  Control, unpin_missing, pin_known, pin_checked, update_model_pool, settle, kept_or_returned,
  replace_model_pool, pin_parsed, pin_model, replace_in, auto_select, apply_mutation, auto_selected,
}
use free_model_router.Gateway.Control.Writes.{Write, handle, updates, replaces, pins, selects_auto}
use free_model_router.Gateway.Control.Restore.{
  refresh_catalog, restore_pin, restore_control_state, restore_pool, apply_generic_selection_policy,
  manual_if_empty,
}
use free_model_router.Catalog.Reconcile.Intent.{merge_keeps_selection}
use free_model_router.Gateway.Control.{route_map}
use free_model_router.Catalog.Reconcile.{◌>>=◌, reconcile}
use free_model_router.Model.Snapshot.{CatalogSnapshot, validate}
use free_model_router.Prelude.{
  ℕ, String, ◌≡◌, refl, inl, inr, Bool, true, ◌||◌, Option, none, some, List, [], ◌∷◌, arith,
  Result, ok, err, Result-cases,
}
use free_model_router.Prelude.Text.{str_eq}
use free_model_router.Model.Snapshot.{CatalogSnapshot, validate}
use free_model_router.Catalog.Store.{Store, mutate, refresh, commit_snapshot, replace_state}
use free_model_router.Model.Route.{ProviderModelId, ProviderRoute}
use free_model_router.Catalog.Pool.{contains, PoolMode}
use free_model_router.Prelude.Dict.{Dict}
use free_model_router.Prelude.Int.{ℤ}
use free_model_router.Model.Identity.{parse}

-- No model is pinned, or the pool selects the one that is.
abbrev pub is_pin_selected : Control → Bool
is_pin_selected c = str_eq c.pinned_model "" || contains c.pool.pool.selected c.pinned_model

pub data Event : Type 0 where
  writes : Write → Event
  refreshes : CatalogSnapshot → Dict (List ProviderRoute) → ℕ → Event

unfoldable pub step : Control → Event → Control
unfolding handle
step c (writes w) = (handle c w).0
step c (refreshes snap routes now) = (refresh_catalog c snap routes now).0

unfoldable pub run : Control → List Event → Control
unfolding step
run c [] = c
run c (e ∷ es) = run (step c e) es

settle-pin :
    (c : Control) (o : Result Store)
    → is_pin_selected c ≡ true
    → is_pin_selected (settle c o).0 ≡ true
unfolding unpin_missing
settle-pin c (err e) h = h
settle-pin c (ok s) h = ground arith

pin_known-pin :
    (c : Control) (o : Option CatalogSnapshot) (id : ProviderModelId)
    → is_pin_selected c ≡ true
    → is_pin_selected (pin_known c o id).0 ≡ true
unfolding pin_known mutate
pin_known-pin c none id h = h
pin_known-pin c (some snap) id h = ground arith

pin_parsed-pin :
    (c : Control) (r : ℤ) (id : ProviderModelId) (o : Result (String × String))
    → is_pin_selected c ≡ true
    → is_pin_selected (pin_parsed c r id o).0 ≡ true
unfolding pin_checked
pin_parsed-pin c r id (err e) h = h
pin_parsed-pin c r id (ok p) h = ground (arith, pin_known-pin c c.catalog id)

kept_or_returned-pin :
    (c : Control) (o : Result Store)
    → c.pinned_model ≡ ""
    → is_pin_selected (kept_or_returned c o).0 ≡ true
kept_or_returned-pin c (err e) h = ground arith
kept_or_returned-pin c (ok s) h = ground arith

handle-pin :
    (c : Control) (w : Write) → is_pin_selected c ≡ true → is_pin_selected (handle c w).0 ≡ true
unfolding handle update_model_pool replace_model_pool pin_model auto_select
handle-pin c (updates r m) h = ground (arith, settle-pin c (apply_mutation c m))
handle-pin c (replaces r ids m) h = ground (arith, settle-pin c (replace_in c.pool ids m))
handle-pin c (pins r id) h = pin_parsed-pin c r id (parse id) h
handle-pin c (selects_auto r) h = ground (
  arith,
  kept_or_returned-pin (record c { pinned_model = "" })
      (auto_selected (record c { pinned_model = "" }) c.catalog) refl,
)

refresh_catalog-pin :
    (c : Control) (snap : CatalogSnapshot) (routes : Dict (List ProviderRoute)) (now : ℕ)
    → is_pin_selected c ≡ true
    → is_pin_selected (refresh_catalog c snap routes now).0 ≡ true
unfolding refresh_catalog refresh reconcile commit_snapshot replace_state
refresh_catalog-pin c snap routes now h = elim (Result-cases (validate snap)) [
  | inr (m, e) ↦ rw (e, ◌>>=◌) h
  | inl (u, e) ↦
      rw (e, ◌>>=◌)
        (ground
          (arith, (merge_keeps_selection c.pool.pool snap (route_map routes) c.pinned_model).1))
]

restore_pin-pin :
    (c : Control) (o : Option CatalogSnapshot) (id : ProviderModelId)
    → c.pinned_model ≡ ""
    → is_pin_selected (restore_pin c o id).0 ≡ true
unfolding restore_pin
restore_pin-pin c none id h = ground arith
restore_pin-pin c (some snap) id h = ground arith

restore_pool-pin :
    (c : Control) (o : Result Store) (id : ProviderModelId)
    → c.pinned_model ≡ ""
    → is_pin_selected (restore_pool c o id).0 ≡ true
restore_pool-pin c (err e) id h = ground arith
restore_pool-pin c (ok s) id h = restore_pin-pin (record c { pool = s }) c.catalog id h

restore_control_state-pin :
    (c : Control) (ids : List ProviderModelId) (m : PoolMode) (id : ProviderModelId)
    → c.pinned_model ≡ ""
    → is_pin_selected (restore_control_state c ids m id).0 ≡ true
unfolding restore_control_state
restore_control_state-pin c ids m id h = ground (
  arith,
  restore_pin-pin c c.catalog id h,
  restore_pool-pin c
      (replace_in c.pool (apply_generic_selection_policy c.routes ids) (manual_if_empty m)) id h,
)

run-pin :
    (c : Control) (es : List Event) → is_pin_selected c ≡ true → is_pin_selected (run c es) ≡ true
unfolding run step
run-pin c [] h = h
run-pin c (writes w ∷ es) h = run-pin (step c (writes w)) es (handle-pin c w h)
run-pin c (refreshes snap routes now ∷ es) h =
    run-pin (step c (refreshes snap routes now)) es (refresh_catalog-pin c snap routes now h)

-- From a gateway without a pinned model whose persisted state is restored, whether that fails or not, over any history of
-- writes of the control plane and catalog refreshes, failing or not: the pinned model is empty or
-- the pool selects it.
pub run-restore_control_state :
    (c : Control) (ids : List ProviderModelId) (m : PoolMode) (id : ProviderModelId)
    (es : List Event)
    → c.pinned_model ≡ ""
    → is_pin_selected (run (restore_control_state c ids m id).0 es) ≡ true
run-restore_control_state c ids m id es h = run-pin _ es (restore_control_state-pin c ids m id h)
