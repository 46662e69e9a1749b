-- ===== src/Catalog/Reconcile/Intent.antt =====
-- What a reconciliation keeps, marks and adds.
use free_model_router.Prelude.{
  ◌≡◌, refl, sym, ◌∙◌, Bool, true, false, not, ◌&&◌, ◌||◌, List, [], ◌∷◌, ◌++◌, arith,
  if◌then◌else◌, Bool-cases, inl, inr, ap,
}
use free_model_router.Prelude.Dict.{Dict, lookup, lookup-assign, lookup-delete}
use free_model_router.Prelude.Text.{str_eq}
use free_model_router.Model.Route.{ProviderModelId, ProviderModel}
use free_model_router.Model.Snapshot.{CatalogSnapshot, entries}
use free_model_router.Catalog.Pool.{PoolState, RouteMap, contains, is_automatic}
use free_model_router.Catalog.Pool.Selection.{contains-append, IsDistinct, IsDistinct-append_one}
use free_model_router.Catalog.Reconcile.{
  is_tombstone, in_catalog, Marks, mark, mark_all, qualifies, include, merge,
}
use mathlib.Core.List.{append_assoc, append-nil}
use mathlib.Core.Bool.{false≢true}

is_tombstone-mark :
    (m : Dict ProviderModel) (s : Marks) (x id : ProviderModelId)
    → is_tombstone (mark m s x).tombstones id
      ≡ (if str_eq x id then not (in_catalog m id) else is_tombstone s.tombstones id)
unfolding mark is_tombstone
is_tombstone-mark m s x id =
    ground (arith, lookup-assign x id true s.tombstones, lookup-delete x id s.tombstones)

is_tombstone-mark_all :
    (m : Dict ProviderModel) (s : Marks) (ids : List ProviderModelId) (id : ProviderModelId)
    → is_tombstone (mark_all m s ids).tombstones id
      ≡ (if contains ids id then not (in_catalog m id) else is_tombstone s.tombstones id)
unfolding mark_all contains
is_tombstone-mark_all m s [] id = refl
is_tombstone-mark_all m s (x ∷ ids) id =
    ground (arith, is_tombstone-mark_all m (mark m s x) ids id, is_tombstone-mark m s x id)

contains-mark :
    (m : Dict ProviderModel) (s : Marks) (x id : ProviderModelId)
    → (contains (mark m s x).tombstoned id ≡ (
        contains s.tombstoned id
        || (str_eq x id && (not (in_catalog m id) && not (is_tombstone s.tombstones id)))))
      × (contains (mark m s x).restored id ≡ (
          contains s.restored id
          || (str_eq x id && (in_catalog m id && is_tombstone s.tombstones id))))
unfolding mark contains
contains-mark m s x id =
    ground (arith, contains-append s.tombstoned (x ∷ []) id, contains-append s.restored (x ∷ []) id)

contains-mark_all :
    (m : Dict ProviderModel) (s : Marks) (ids : List ProviderModelId) (id : ProviderModelId)
    → (contains (mark_all m s ids).tombstoned id ≡ (
        contains s.tombstoned id
        || (contains ids id && (not (in_catalog m id) && not (is_tombstone s.tombstones id)))))
      × (contains (mark_all m s ids).restored id ≡ (
          contains s.restored id
          || (contains ids id && (in_catalog m id && is_tombstone s.tombstones id))))
unfolding mark_all contains
contains-mark_all m s [] id = ground arith
contains-mark_all m s (x ∷ ids) id = ground (
  arith,
  contains-mark_all m (mark m s x) ids id,
  contains-mark m s x id,
  is_tombstone-mark m s x id,
)

contains-include :
    (auto : Bool) (routes : RouteMap) (sel added : List ProviderModelId) (m : Dict ProviderModel)
    (id : ProviderModelId)
    → contains (include auto routes sel added m).0 id
      ≡ (contains sel id || (in_catalog m id && qualifies auto (routes id)))
unfolding include contains in_catalog lookup
contains-include auto routes sel added [] id = ground arith
contains-include auto routes sel added ((j, pm) ∷ rest) id = ground (
  arith,
  contains-include auto routes (sel ++ j ∷ []) (added ++ j ∷ []) rest id,
  contains-include auto routes sel added rest id,
  contains-append sel (j ∷ []) id,
)

contains-added :
    (auto : Bool) (routes : RouteMap) (sel added : List ProviderModelId) (m : Dict ProviderModel)
    (id : ProviderModelId)
    → contains (include auto routes sel added m).1 id ≡ (
        contains added id
        || (not (contains sel id) && (in_catalog m id && qualifies auto (routes id))))
unfolding include contains in_catalog lookup
contains-added auto routes sel added [] id = ground arith
contains-added auto routes sel added ((j, pm) ∷ rest) id = ground (
  arith,
  contains-added auto routes (sel ++ j ∷ []) (added ++ j ∷ []) rest id,
  contains-added auto routes sel added rest id,
  contains-append sel (j ∷ []) id,
  contains-append added (j ∷ []) id,
)

include-append :
    (auto : Bool) (routes : RouteMap) (sel added old : List ProviderModelId)
    (m : Dict ProviderModel)
    → sel ≡ old ++ added
    → (include auto routes sel added m).0 ≡ old ++ (include auto routes sel added m).1
unfolding include
include-append auto routes sel added old [] e = e
include-append auto routes sel added old ((j, pm) ∷ rest) e =
    elim (Bool-cases (qualifies auto (routes j) && not (contains sel j))) [
      | inl hit ↦
          rw (hit, include)
            (include-append auto routes (sel ++ j ∷ []) (added ++ j ∷ []) old rest
              (ap (λ l. l ++ j ∷ []) e ∙ append_assoc old added (j ∷ [])))
      | inr miss ↦ rw (miss, include) (include-append auto routes sel added old rest e)
    ]

include-IsDistinct :
    (auto : Bool) (routes : RouteMap) (sel added : List ProviderModelId) (m : Dict ProviderModel)
    → IsDistinct sel
    → IsDistinct (include auto routes sel added m).0
unfolding include
include-IsDistinct auto routes sel added [] d = d
include-IsDistinct auto routes sel added ((j, pm) ∷ rest) d =
    elim (Bool-cases (qualifies auto (routes j) && not (contains sel j))) [
      | inl hit ↦
          rw (hit, include)
            (include-IsDistinct auto routes _ _ rest (IsDistinct-append_one sel j (ground arith) d))
      | inr miss ↦ rw (miss, include) (include-IsDistinct auto routes sel added rest d)
    ]

-- The added ids are distinct, as long as those added before are selected.
added-IsDistinct :
    (auto : Bool) (routes : RouteMap) (sel added : List ProviderModelId) (m : Dict ProviderModel)
    → ((id : ProviderModelId) → contains added id ≡ true → contains sel id ≡ true)
    → IsDistinct added
    → IsDistinct (include auto routes sel added m).1
unfolding include contains
added-IsDistinct auto routes sel added [] sub d = d
added-IsDistinct auto routes sel added ((j, pm) ∷ rest) sub d =
    elim (Bool-cases (qualifies auto (routes j) && not (contains sel j))) [
      | inl hit ↦
          rw (hit, include)
            (added-IsDistinct auto routes (sel ++ j ∷ []) (added ++ j ∷ []) rest
              (λ id h.
                let k = sub id in
                ground
                  (arith, h, k, contains-append sel (j ∷ []) id, contains-append added (j ∷ []) id))
              (IsDistinct-append_one added j (let k = sub j in ground (arith, hit, k)) d))
      | inr miss ↦ rw (miss, include) (added-IsDistinct auto routes sel added rest sub d)
    ]

-- A reconciliation never drops or reorders what is selected: the new selection is the old one and
-- then the added ids. No id is added twice, and one is added exactly when it was not selected before,
-- it is in the catalog, and it has an enabled route that is selected by default, or in Automatic mode
-- one that routes automatically. So an id is selected afterwards exactly when it was before or it is
-- such an id. The mode stays.
pub merge_keeps_selection :
    (p : PoolState) (snap : CatalogSnapshot) (routes : RouteMap) (id : ProviderModelId)
    → let after = merge p snap routes in
      let wanted =
        in_catalog (entries snap.models) id && qualifies (is_automatic p.mode) (routes id) in
      (after.0.selected ≡ p.selected ++ after.1.added)
      × (contains after.0.selected id ≡ (contains p.selected id || wanted))
      × (after.0.mode ≡ p.mode)
      × (contains after.1.added id ≡ (not (contains p.selected id) && wanted))
      × IsDistinct after.1.added
unfolding merge contains
merge_keeps_selection p snap routes id = (
  include-append auto routes p.selected [] p.selected m (sym (append-nil p.selected)),
  contains-include auto routes p.selected [] m id,
  refl,
  contains-added auto routes p.selected [] m id,
  added-IsDistinct auto routes p.selected [] m (λ x h. absurd (false≢true h)) tt,
)
  where
    auto : Bool
    auto = is_automatic p.mode

    m : Dict ProviderModel
    m = entries snap.models

pub merge-IsDistinct :
    (p : PoolState) (snap : CatalogSnapshot) (routes : RouteMap)
    → IsDistinct p.selected
    → IsDistinct (merge p snap routes).0.selected
unfolding merge
merge-IsDistinct p snap routes d =
    include-IsDistinct (is_automatic p.mode) routes p.selected [] (entries snap.models) d

-- After a reconciliation a selected id carries a tombstone exactly when the catalog lacks it, and an
-- unselected id keeps the tombstone that it had; reported as tombstoned are the selected ids that
-- newly went missing, and as restored those that came back.
pub merge_tombstones :
    (p : PoolState) (snap : CatalogSnapshot) (routes : RouteMap) (id : ProviderModelId)
    → let after = merge p snap routes in
      let present = in_catalog (entries snap.models) id in
      let was = is_tombstone p.tombstones id in
      (is_tombstone after.0.tombstones id ≡ (if contains p.selected id then not present else was))
      × (contains after.1.tombstoned id ≡ (contains p.selected id && (not present && not was)))
      × (contains after.1.restored id ≡ (contains p.selected id && (present && was)))
unfolding merge contains
merge_tombstones p snap routes id = (
  is_tombstone-mark_all m start p.selected id,
  (contains-mark_all m start p.selected id).0,
  (contains-mark_all m start p.selected id).1,
)
  where
    m : Dict ProviderModel
    m = entries snap.models

    start : Marks
    start = record { tombstones = p.tombstones; tombstoned = []; restored = [] }

-- A selected model that a refresh finds missing and a later refresh finds again stays selected
-- throughout, is reported as tombstoned if it was not already, is reported as restored, and ends
-- without a tombstone.
pub merge_restores :
    (p : PoolState) (gone back : CatalogSnapshot) (routes routes' : RouteMap) (id : ProviderModelId)
    → contains p.selected id ≡ true
    → in_catalog (entries gone.models) id ≡ false
    → in_catalog (entries back.models) id ≡ true
    → let first = merge p gone routes in
      let second = merge first.0 back routes' in
      (contains first.0.selected id ≡ true)
      × (is_tombstone first.0.tombstones id ≡ true)
      × (contains second.0.selected id ≡ true)
      × (contains second.1.restored id ≡ true)
      × (is_tombstone second.0.tombstones id ≡ false)
merge_restores p gone back routes routes' id held missing found = ground (
  arith,
  merge_keeps_selection p gone routes id,
  merge_tombstones p gone routes id,
  merge_keeps_selection (merge p gone routes).0 back routes' id,
  merge_tombstones (merge p gone routes).0 back routes' id,
)
