-- ===== src/Catalog/Store/Steps.antt =====
-- The store over any history of calls.
use free_model_router.Prelude.{
  ℕ, ◌≡◌, refl, Option, none, some, List, [], ◌∷◌, Result, ok, err, Result-cases, inl, inr,
  Bool-cases, All,
}
use free_model_router.Prelude.Int.{ℤ}
use free_model_router.Model.Route.{ProviderModelId}
use free_model_router.Model.Snapshot.{CatalogSnapshot, validate}
use free_model_router.Catalog.Pool.{
  RouteMap, clear_all, PoolState, PoolMode, replace, is_valid_mode, default_mode,
}
use free_model_router.Catalog.Pool.Selection.{
  IsDistinct, select-IsDistinct, deselect-IsDistinct, select_all-IsDistinct,
}
use free_model_router.Catalog.Reconcile.{◌>>=◌, reconcile}
use free_model_router.Catalog.Reconcile.Intent.{merge-IsDistinct}
use free_model_router.Catalog.Store.{
  Store, new_store, commit_snapshot, store_select, store_deselect, store_select_all,
  store_clear_all, refresh, mutate, replace_state,
}

-- The calls of a store: `replaces` is the `Mutate` around `PoolState.Replace` through which the gateway
-- edits the pool, `mutates` is `Mutate` with any other callback.
pub data Call : Type 0 where
  selects deselects : List ProviderModelId → Call
  selects_all : Option CatalogSnapshot → RouteMap → Call
  clears : Call
  mutates : (PoolState → PoolState) → Call
  replaces : List ProviderModelId → PoolMode → Call
  replaces_state : Option PoolState → Call
  commits : Option CatalogSnapshot → ℕ → Call
  refreshes : CatalogSnapshot → RouteMap → ℕ → Call

-- A call that fails leaves the store as it was.
abbrev after_commit : Store → Result (Store × CatalogSnapshot) → Store
after_commit s (ok (t, snap)) = t
after_commit s (err e) = s

abbrev after_refresh : Store → Result Store → Store
after_refresh s (ok t) = t
after_refresh s (err e) = s

-- `Mutate` with `Replace`: one that fails leaves the pool as it was.
abbrev after_replace : PoolState → Result PoolState → PoolState
after_replace p (ok q) = q
after_replace p (err e) = p

unfoldable pub step : Store → Call → Store
step s (selects ids) = store_select s ids
step s (deselects ids) = store_deselect s ids
step s (selects_all catalog routes) = store_select_all s catalog routes
step s clears = store_clear_all s
step s (mutates f) = mutate s f
step s (replaces ids m) = mutate s (λ p. after_replace p (replace p ids m))
step s (replaces_state p) = replace_state s p
step s (commits snap now) = after_commit s (commit_snapshot s snap now)
step s (refreshes snap routes now) = after_refresh s (refresh s snap routes now)

unfoldable pub run : Store → List Call → Store
unfolding step
run s [] = s
run s (c ∷ cs) = run (step s c) cs

-- The committed catalog, if there is one, carries the store's revision, and no id is selected twice.
abbrev pub HasRevision : Option CatalogSnapshot → ℤ → Type 0
HasRevision none r = Unit
HasRevision (some c) r = c.revision ≡ r

pub record Inv (s : Store) : Type 0 where
  pub revision : HasRevision s.catalog s.snapshot_revision
  pub distinct : IsDistinct s.pool.selected

commit_snapshot-Inv :
    (s : Store) (snap : Option CatalogSnapshot) (now : ℕ)
    → Inv s
    → Inv (after_commit s (commit_snapshot s snap now))
unfolding commit_snapshot
commit_snapshot-Inv s none now v = v
commit_snapshot-Inv s (some snap) now v = elim (Result-cases (validate snap)) [
  | inl (u, e) ↦ rw (e, ◌>>=◌) (record { revision = refl; distinct = v.distinct })
  | inr (m, e) ↦ rw (e, ◌>>=◌) v
]

refresh-Inv :
    (s : Store) (snap : CatalogSnapshot) (routes : RouteMap) (now : ℕ)
    → Inv s
    → Inv (after_refresh s (refresh s snap routes now))
unfolding refresh reconcile commit_snapshot
refresh-Inv s snap routes now v = elim (Result-cases (validate snap)) [
  | inl (u, e) ↦
      rw (e, ◌>>=◌)
        (record { revision = refl; distinct = merge-IsDistinct s.pool snap routes v.distinct })
  | inr (m, e) ↦ rw (e, ◌>>=◌) v
]

-- What a call hands over selects no id twice: a list as it is, a callback where the pool before it does
-- not. The other calls hand over nothing that would.
abbrev pub IsCareful : Call → Type 0
IsCareful (mutates f) = (p : PoolState) → IsDistinct p.selected → IsDistinct (f p).selected
IsCareful (replaces ids m) = IsDistinct ids
IsCareful (replaces_state (some p)) = IsDistinct p.selected
IsCareful _ = Unit

after_replace-IsDistinct :
    (p : PoolState) (ids : List ProviderModelId) (m : PoolMode)
    → IsDistinct ids
    → IsDistinct p.selected
    → IsDistinct (after_replace p (replace p ids m)).selected
unfolding replace
after_replace-IsDistinct p ids m d old = elim (Bool-cases (is_valid_mode (default_mode m))) [
  | inl e ↦ rw e d
  | inr e ↦ rw e old
]

step-Inv : (s : Store) (c : Call) → IsCareful c → Inv s → Inv (step s c)
unfolding step store_select store_deselect store_select_all store_clear_all clear_all mutate
    replace_state
step-Inv s (selects ids) t v = record {
  revision = v.revision;
  distinct = select-IsDistinct s.pool ids v.distinct;
}
step-Inv s (deselects ids) t v = record {
  revision = v.revision;
  distinct = deselect-IsDistinct s.pool ids v.distinct;
}
step-Inv s (selects_all catalog routes) t v = record {
  revision = v.revision;
  distinct = select_all-IsDistinct s.pool catalog routes v.distinct;
}
step-Inv s clears t v = record { revision = v.revision; distinct = tt }
step-Inv s (mutates f) t v = record { revision = v.revision; distinct = t s.pool v.distinct }
step-Inv s (replaces ids m) t v = record {
  revision = v.revision;
  distinct = after_replace-IsDistinct s.pool ids m t v.distinct;
}
step-Inv s (replaces_state none) t v = v
step-Inv s (replaces_state (some p)) t v = record { revision = v.revision; distinct = t }
step-Inv s (commits snap now) t v = commit_snapshot-Inv s snap now v
step-Inv s (refreshes snap routes now) t v = refresh-Inv s snap routes now v

-- From a store whose pool selects no id twice and whose committed catalog, if there is one, carries the
-- store's own revision, over any history of its calls, failing or not, in which no list, state or
-- callback handed over to `Replace`, `ReplaceState` or `Mutate` makes the pool select an id twice: no
-- id is selected twice, and the committed catalog carries the store's revision, never the provider's.
pub run-Inv : (s : Store) (calls : List Call) → All IsCareful calls → Inv s → Inv (run s calls)
unfolding run
run-Inv s [] t v = v
run-Inv s (c ∷ cs) t v = run-Inv (step s c) cs t.1 (step-Inv s c t.0 v)

pub new_store-Inv : Inv (new_store none)
unfolding new_store
new_store-Inv = record { revision = tt; distinct = tt }
