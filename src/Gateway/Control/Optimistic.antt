-- ===== src/Gateway/Control/Optimistic.antt =====
-- One write of the control plane at a time: what it leaves of the state, and the revision it takes.
use free_model_router.Gateway.Control.{
  Control, config_of, update_model_pool, replace_model_pool, pin_checked, auto_select,
  auto_selected, apply_mutation, replace_in, is_current, PoolMutation, unpin_missing, settle,
  is_nonempty, pin_known, kept_or_returned, pin_parsed,
}
use free_model_router.Catalog.Pool.{
  replace, select_all, clear_all, ModelPoolConfig, PoolMode, is_valid_mode, default_mode, contains,
}
use free_model_router.Catalog.Store.{mutate, Store}
use free_model_router.Prelude.{
  String, ◌≡◌, refl, ap, ◌∙◌, inl, inr, true, not, ◌&&◌, ◌||◌, Option, none, some, List, Bool-cases,
  Result, ok, err,
}
use free_model_router.Prelude.Int.{ℤ, eq_ℤ, suc_int64}
use free_model_router.Model.Route.{ProviderModelId}
use free_model_router.Prelude.Text.{str_eq}
use free_model_router.Catalog.Reconcile.{in_catalog}
use free_model_router.Model.Snapshot.{entries, CatalogSnapshot}

-- A failed write leaves the state as it was; one that succeeds names the current revision, takes
-- the next one, returns the configuration it left behind, and keeps the catalog and the routes.
pub record IsCommit (c : Control) (r : ℤ) (after : Control) (cfg : ModelPoolConfig) : Type 0 where
  pub current : eq_ℤ c.pool.pool.revision r ≡ true
  pub returned : cfg ≡ config_of after
  pub advanced : cfg.revision ≡ suc_int64 c.pool.pool.revision
  pub same_catalog : after.catalog ≡ c.catalog
  pub same_routes : after.routes ≡ c.routes

abbrev pub IsOptimistic : Control → ℤ → Control × Result ModelPoolConfig → Type 0
IsOptimistic c r (after, err e) = after ≡ c
IsOptimistic c r (after, ok cfg) = IsCommit c r after cfg

-- What the pool's part of a write gives.
abbrev HasNextRevision : Store → Result Store → Type 0
HasNextRevision s (err e) = Unit
HasNextRevision s (ok t) = t.pool.config.revision ≡ suc_int64 s.pool.config.revision

replace_in-HasNextRevision :
    (s : Store) (ids : List ProviderModelId) (m : PoolMode) → HasNextRevision s (replace_in s ids m)
unfolding replace_in replace mutate
replace_in-HasNextRevision s ids m = elim (Bool-cases (is_valid_mode (default_mode m))) [
  | inl h ↦ rw h refl
  | inr h ↦ rw h tt
]

apply_mutation-HasNextRevision :
    (c : Control) (m : PoolMutation) → HasNextRevision c.pool (apply_mutation c m)
unfolding apply_mutation select_all clear_all mutate
apply_mutation-HasNextRevision c m = elim (Bool-cases m.select_all) [
  | inl h ↦ rw h refl
  | inr h ↦ elim (Bool-cases m.clear_all) [
    | inl k ↦ rw (h, k) refl
    | inr k ↦ rw (h, k) (replace_in-HasNextRevision c.pool _ _)
  ]
]

unpin_missing-same :
    (c : Control)
    → (config_of (unpin_missing c) ≡ config_of c)
      × ((unpin_missing c).catalog ≡ c.catalog)
      × ((unpin_missing c).routes ≡ c.routes)
unfolding unpin_missing
unpin_missing-same c =
    elim (Bool-cases
      (not (str_eq c.pinned_model "") && not (contains c.pool.pool.selected c.pinned_model))) [
        | inl h ↦ rw h (refl, refl, refl)
        | inr h ↦ rw h (refl, refl, refl)
      ]

settle-IsOptimistic :
    (c : Control) (r : ℤ) (o : Result Store)
    → is_current c r ≡ true
    → HasNextRevision c.pool o
    → IsOptimistic c r (settle c o)
settle-IsOptimistic c r (err e) h k = refl
settle-IsOptimistic c r (ok s) h k =
    let same = unpin_missing-same (record c { pool = s }) in
    record {
      current = h;
      returned = refl;
      advanced = ap (λ g. g.revision) same.0 ∙ k;
      same_catalog = same.1;
      same_routes = same.2;
    }

pub update_model_pool-IsOptimistic :
    (c : Control) (r : ℤ) (m : PoolMutation) → IsOptimistic c r (update_model_pool c r m)
unfolding update_model_pool
update_model_pool-IsOptimistic c r m = elim (Bool-cases (is_current c r)) [
  | inr h ↦ rw h refl
  | inl h ↦ elim (Bool-cases (m.select_all && m.clear_all)) [
    | inl k ↦ rw (h, k) refl
    | inr k ↦
        elim (Bool-cases
          ((m.select_all || m.clear_all) && (is_nonempty m.select || is_nonempty m.deselect))) [
            | inl l ↦ rw (h, k, l) refl
            | inr l ↦
                rw (h, k, l)
                  (settle-IsOptimistic c r (apply_mutation c m) h
                    (apply_mutation-HasNextRevision c m))
          ]
  ]
]

pub replace_model_pool-IsOptimistic :
    (c : Control) (r : ℤ) (ids : List ProviderModelId) (m : PoolMode)
    → IsOptimistic c r (replace_model_pool c r ids m)
unfolding replace_model_pool
replace_model_pool-IsOptimistic c r ids m = elim (Bool-cases (is_current c r)) [
  | inr h ↦ rw h refl
  | inl h ↦ rw h (
      settle-IsOptimistic c r (replace_in c.pool ids m) h (replace_in-HasNextRevision c.pool ids m))
]

pin_known-IsOptimistic :
    (c : Control) (r : ℤ) (o : Option CatalogSnapshot) (id : ProviderModelId)
    → is_current c r ≡ true
    → IsOptimistic c r (pin_known c o id)
unfolding pin_known mutate
pin_known-IsOptimistic c r none id h = refl
pin_known-IsOptimistic c r (some snap) id h =
    elim (Bool-cases
      (not (in_catalog (entries snap.models) id) || not (contains c.pool.pool.selected id))) [
        | inl l ↦ rw l refl
        | inr l ↦ rw l (record {
          current = h;
          returned = refl;
          advanced = refl;
          same_catalog = refl;
          same_routes = refl;
        })
      ]

pin_checked-IsOptimistic :
    (c : Control) (r : ℤ) (id : ProviderModelId) → IsOptimistic c r (pin_checked c r id)
unfolding pin_checked
pin_checked-IsOptimistic c r id = elim (Bool-cases (is_current c r)) [
  | inr h ↦ rw h refl
  | inl h ↦ rw h (pin_known-IsOptimistic c r c.catalog id h)
]

pub pin_parsed-IsOptimistic :
    (c : Control) (r : ℤ) (id : ProviderModelId) (o : Result (String × String))
    → IsOptimistic c r (pin_parsed c r id o)
pin_parsed-IsOptimistic c r id (err e) = refl
pin_parsed-IsOptimistic c r id (ok p) = pin_checked-IsOptimistic c r id

kept_or_returned-IsOptimistic :
    (c : Control) (r : ℤ) (o : Option CatalogSnapshot)
    → is_current c r ≡ true
    → IsOptimistic c r (
        kept_or_returned
          (record c { pinned_model = "" })
          (auto_selected (record c { pinned_model = "" }) o))
unfolding auto_selected replace_in replace mutate select_all
kept_or_returned-IsOptimistic c r none h = record {
  current = h;
  returned = refl;
  advanced = refl;
  same_catalog = refl;
  same_routes = refl;
}
kept_or_returned-IsOptimistic c r (some snap) h = record {
  current = h;
  returned = refl;
  advanced = refl;
  same_catalog = refl;
  same_routes = refl;
}

pub auto_select-IsOptimistic : (c : Control) (r : ℤ) → IsOptimistic c r (auto_select c r)
unfolding auto_select
auto_select-IsOptimistic c r = elim (Bool-cases (is_current c r)) [
  | inr h ↦ rw h refl
  | inl h ↦ rw h (kept_or_returned-IsOptimistic c r c.catalog h)
]
