-- ===== src/Catalog/Pool/Selection.antt =====
-- What the pool's edits do to its selection.
use free_model_router.Prelude.{
  ◌≡◌, refl, not, ◌&&◌, ◌||◌, List, [], ◌∷◌, ◌++◌, arith, false, Bool-cases, inl, Option, inr,
}
use free_model_router.Prelude.Text.{str_eq}
use free_model_router.Model.Route.{ProviderModelId, ProviderModel}
use free_model_router.Catalog.Pool.{
  contains, add_id, add_ids, remove_ids, include_auto, select, deselect, select_all, RouteMap,
  PoolState, manual, has_auto_routable_route, catalog_entries,
}
use free_model_router.Prelude.Dict.{Dict}
use free_model_router.Model.Snapshot.{CatalogSnapshot}

pub contains-append :
    (xs ys : List ProviderModelId) (id : ProviderModelId)
    → contains (xs ++ ys) id ≡ (contains xs id || contains ys id)
unfolding contains
contains-append [] ys id = refl
contains-append (x ∷ xs) ys id = ground (arith, contains-append xs ys id)

contains-add_id :
    (sel : List ProviderModelId) (x id : ProviderModelId)
    → contains (add_id sel x) id ≡ (contains sel id || str_eq x id)
unfolding add_id contains
contains-add_id sel x id = ground (arith, contains-append sel (x ∷ []) id)

contains-add_ids :
    (sel ids : List ProviderModelId) (id : ProviderModelId)
    → contains (add_ids sel ids) id ≡ (contains sel id || contains ids id)
unfolding add_ids contains
contains-add_ids sel [] id = ground arith
contains-add_ids sel (x ∷ ids) id =
    ground (arith, contains-add_ids (add_id sel x) ids id, contains-add_id sel x id)

pub contains-remove_ids :
    (sel ids : List ProviderModelId) (id : ProviderModelId)
    → contains (remove_ids sel ids) id ≡ (contains sel id && not (contains ids id))
unfolding remove_ids contains
contains-remove_ids [] ids id = refl
contains-remove_ids (s ∷ rest) ids id = ground (arith, contains-remove_ids rest ids id)

-- No id is selected twice.
abbrev pub IsDistinct : List ProviderModelId → Type 0
IsDistinct [] = Unit
IsDistinct (x ∷ xs) = (contains xs x ≡ false) × IsDistinct xs

pub IsDistinct-append_one :
    (xs : List ProviderModelId) (id : ProviderModelId)
    → contains xs id ≡ false
    → IsDistinct xs
    → IsDistinct (xs ++ id ∷ [])
unfolding contains
IsDistinct-append_one [] id h d = (refl, tt)
IsDistinct-append_one (x ∷ xs) id h d =
    (ground (arith, contains-append xs (id ∷ []) x), IsDistinct-append_one xs id (ground arith) d.1)

add_ids-IsDistinct :
    (sel ids : List ProviderModelId) → IsDistinct sel → IsDistinct (add_ids sel ids)
unfolding add_ids add_id
add_ids-IsDistinct sel [] d = d
add_ids-IsDistinct sel (x ∷ ids) d = elim (Bool-cases (contains sel x)) [
  | inl old ↦ rw old (add_ids-IsDistinct sel ids d)
  | inr new ↦ rw new (add_ids-IsDistinct _ ids (IsDistinct-append_one sel x new d))
]

pub remove_ids-IsDistinct :
    (sel ids : List ProviderModelId) → IsDistinct sel → IsDistinct (remove_ids sel ids)
unfolding remove_ids contains
remove_ids-IsDistinct [] ids d = tt
remove_ids-IsDistinct (s ∷ rest) ids d =
    ground (arith, contains-remove_ids rest ids s, remove_ids-IsDistinct rest ids d.1)

include_auto-IsDistinct :
    (routes : RouteMap) (sel : List ProviderModelId) (m : Dict ProviderModel)
    → IsDistinct sel
    → IsDistinct (include_auto routes sel m)
unfolding include_auto
include_auto-IsDistinct routes sel [] d = d
include_auto-IsDistinct routes sel ((id, pm) ∷ rest) d =
    elim (Bool-cases (not (contains sel id) && has_auto_routable_route (routes id))) [
      | inl new ↦
          rw new
            (include_auto-IsDistinct routes _ rest (IsDistinct-append_one sel id (ground arith) d))
      | inr old ↦ rw old (include_auto-IsDistinct routes sel rest d)
    ]

-- After `Select` an id is selected exactly when it was or is among the given ids; after `Deselect`
-- exactly when it was and is not among them. Both switch the pool to Manual mode.
pub contains-select-deselect :
    (p : PoolState) (ids : List ProviderModelId) (id : ProviderModelId)
    → (contains (select p ids).selected id ≡ (contains p.selected id || contains ids id))
      × (contains (deselect p ids).selected id ≡ (contains p.selected id && not (contains ids id)))
      × ((select p ids).mode ≡ manual)
      × ((deselect p ids).mode ≡ manual)
unfolding select deselect
contains-select-deselect p ids id =
    (contains-add_ids p.selected ids id, contains-remove_ids p.selected ids id, refl, refl)

pub select-IsDistinct :
    (p : PoolState) (ids : List ProviderModelId)
    → IsDistinct p.selected
    → IsDistinct (select p ids).selected
unfolding select
select-IsDistinct p ids d = add_ids-IsDistinct p.selected ids d

pub deselect-IsDistinct :
    (p : PoolState) (ids : List ProviderModelId)
    → IsDistinct p.selected
    → IsDistinct (deselect p ids).selected
unfolding deselect
deselect-IsDistinct p ids d = remove_ids-IsDistinct p.selected ids d

pub select_all-IsDistinct :
    (p : PoolState) (catalog : Option CatalogSnapshot) (routes : RouteMap)
    → IsDistinct p.selected
    → IsDistinct (select_all p catalog routes).selected
unfolding select_all
select_all-IsDistinct p catalog routes d =
    include_auto-IsDistinct routes p.selected (catalog_entries catalog) d
