-- ===== src/Catalog/Store.antt =====
-- internal/catalog/store.go: the pool and the committed catalog behind one lock, so that every method
-- is one step on the pair of them. A copy of a value is the value itself.
pub mod Steps
use free_model_router.Prelude.{ℕ, Option, none, some, List, Result, ok, if◌then◌else◌, ◌==◌}
use free_model_router.Prelude.Int.{ℤ, pos, suc_int64}
use free_model_router.Model.Route.{ProviderModelId}
use free_model_router.Model.Snapshot.{CatalogSnapshot, validate}
use free_model_router.Catalog.Pool.{
  PoolState, RouteMap, new_pool_state, select, deselect, select_all, clear_all,
}
use free_model_router.Catalog.Reconcile.{or_fail, reconcile, ◌>>=◌}

pub record Store : Type 0 where
  pub pool : PoolState
  pub catalog : Option CatalogSnapshot
  pub snapshot_revision : ℤ

-- `NewStore`
abbrev pool_or_new : Option PoolState → PoolState
pool_or_new none = new_pool_state none
pool_or_new (some p) = p

unfoldable pub new_store : Option PoolState → Store
new_store p = record { pool = pool_or_new p; catalog = none; snapshot_revision = pos 0 }

-- The copy that `CommitSnapshot` stores: the next revision, and `now` where no time was given.
abbrev pub stamped : CatalogSnapshot → ℤ → ℕ → CatalogSnapshot
stamped snap revision now = record snap {
  revision = revision;
  created_at = if snap.created_at == 0 then now else snap.created_at;
}

-- `CommitSnapshot`, and `CommitCatalogSnapshot`
unfoldable pub commit_snapshot :
    Store → Option CatalogSnapshot → ℕ → Result (Store × CatalogSnapshot)
commit_snapshot s snapshot now = do
  snap ← or_fail snapshot "nil catalog snapshot"
  _ ← validate snap
  let revision = suc_int64 s.snapshot_revision
  let committed = stamped snap revision now
  ok (record s { catalog = some committed; snapshot_revision = revision }, committed)

-- `ReplaceState`: a nil pool changes nothing.
unfoldable pub replace_state : Store → Option PoolState → Store
replace_state s none = s
replace_state s (some p) = record s { pool = p }

-- `Mutate`
unfoldable pub mutate : Store → (PoolState → PoolState) → Store
mutate s f = record s { pool = f s.pool }

-- `Select`, `Deselect`, `SelectAll` and `ClearAll` of the store
unfoldable pub store_select : Store → List ProviderModelId → Store
unfolding mutate
store_select s ids = mutate s (λ p. select p ids)

unfoldable pub store_deselect : Store → List ProviderModelId → Store
unfolding mutate
store_deselect s ids = mutate s (λ p. deselect p ids)

unfoldable pub store_select_all : Store → Option CatalogSnapshot → RouteMap → Store
unfolding mutate
store_select_all s catalog routes = mutate s (λ p. select_all p catalog routes)

unfoldable pub store_clear_all : Store → Store
unfolding mutate
store_clear_all s = mutate s clear_all

-- The part of `(*Gateway).RefreshCatalog` that changes the store: the pool is reconciled on a copy,
-- the catalog is committed, and only then is the copy published.
unfoldable pub refresh : Store → CatalogSnapshot → RouteMap → ℕ → Result Store
unfolding replace_state
refresh s snap routes now = do
  _ ← validate snap
  merged ← reconcile (some s.pool) (some snap) routes
  committed ← commit_snapshot s (some snap) now
  ok (replace_state committed.0 (some merged.0))
