-- ===== src/Catalog/Reconcile.antt =====
-- internal/catalog/reconcile.go: a fresh catalog is merged into the pool without losing what the
-- user selected.
pub mod Intent
use free_model_router.Prelude.{
  Bool, true, false, not, ◌&&◌, ◌||◌, String, Option, none, some, List, [], ◌∷◌, ◌++◌, Result, ok,
  err, if◌then◌else◌,
}
use free_model_router.Prelude.Int.{suc_int64}
use free_model_router.Prelude.Dict.{Dict, lookup, assign, delete}
use free_model_router.Model.Route.{ProviderModelId, ProviderModel, ProviderRoute}
use free_model_router.Model.Snapshot.{CatalogSnapshot, entries, validate}
use free_model_router.Catalog.Pool.{
  PoolState, RouteMap, contains, is_automatic, has_auto_routable_route, has_default_selected_route,
}

-- `AccessChanged` is never set by `Reconcile`, so the record leaves it out.
pub record ReconcileResult : Type 0 where
  pub added : List ProviderModelId
  pub tombstoned : List ProviderModelId
  pub restored : List ProviderModelId
  pub snapshot : CatalogSnapshot

-- `t[id]` of a `map[…]bool`: a missing key reads as false.
abbrev pub flag_or_false : Option Bool → Bool
flag_or_false none = false
flag_or_false (some b) = b

unfoldable pub is_tombstone : Dict Bool → ProviderModelId → Bool
is_tombstone t id = flag_or_false (lookup id t)

abbrev pub is_some {ℓ} : {A : Type ℓ} → Option A → Bool
is_some none = false
is_some (some a) = true

-- `_, ok := snap.Models[id]`
unfoldable pub in_catalog : Dict ProviderModel → ProviderModelId → Bool
in_catalog m id = is_some (lookup id m)

-- What the first loop changes.
pub record Marks : Type 0 where
  pub tombstones : Dict Bool
  pub tombstoned : List ProviderModelId
  pub restored : List ProviderModelId

-- the body of the first loop
unfoldable pub mark : Dict ProviderModel → Marks → ProviderModelId → Marks
mark m s id =
    if not (in_catalog m id)
    then (if not (is_tombstone s.tombstones id)
        then record s {
          tombstones = assign id true s.tombstones;
          tombstoned = s.tombstoned ++ id ∷ [];
        }
        else s)
    else if is_tombstone s.tombstones id
    then record s { tombstones = delete id s.tombstones; restored = s.restored ++ id ∷ [] }
    else s

unfoldable pub mark_all : Dict ProviderModel → Marks → List ProviderModelId → Marks
mark_all m s [] = s
mark_all m s (id ∷ ids) = mark_all m (mark m s id) ids

-- The test of the second loop but for `!Contains`.
unfoldable pub qualifies : Bool → List ProviderRoute → Bool
qualifies auto rs = has_default_selected_route rs || (auto && has_auto_routable_route rs)

-- The second loop, with the selection and the added ids.
unfoldable pub include :
    Bool
    → RouteMap
    → List ProviderModelId
    → List ProviderModelId
    → Dict ProviderModel
    → List ProviderModelId × List ProviderModelId
include auto routes sel added [] = (sel, added)
include auto routes sel added ((id, pm) ∷ rest) =
    let hit = qualifies auto (routes id) && not (contains sel id) in
    include auto routes (if hit then sel ++ id ∷ [] else sel)
      (if hit then added ++ id ∷ [] else added) rest

-- `Reconcile` behind its nil checks
unfoldable pub merge : PoolState → CatalogSnapshot → RouteMap → PoolState × ReconcileResult
merge p snap routes =
    let m = entries snap.models in
    let marks =
      mark_all m (record { tombstones = p.tombstones; tombstoned = []; restored = [] })
        p.selected in
    let (sel, added) = include (is_automatic p.mode) routes p.selected [] m in
    (
      record {
        config = record { revision = suc_int64 p.revision; mode = p.mode; selected = sel };
        tombstones = marks.tombstones;
      },
      record {
        added = added;
        tombstoned = marks.tombstoned;
        restored = marks.restored;
        snapshot = snap;
      },
    )

abbrev pub or_fail {ℓ} : {A : Type ℓ} → Option A → String → Result A
or_fail none e = err e
or_fail (some a) e = ok a

infixl 5 ◌>>=◌
abbrev pub ◌>>=◌ {ℓ κ} : {A : Type ℓ} {B : Type κ} → Result A → (A → Result B) → Result B
ok a >>= f = f a
err e >>= f = err e

-- `(*Reconciler).Reconcile`; nil pointers are `none`.
unfoldable pub reconcile :
    Option PoolState → Option CatalogSnapshot → RouteMap → Result (PoolState × ReconcileResult)
reconcile pool snapshot routes = do
  p ← or_fail pool "nil pool state"
  snap ← or_fail snapshot "nil snapshot"
  _ ← validate snap
  ok (merge p snap routes)
