-- ===== src/Catalog/Access.antt =====
-- internal/catalog/reconcile.go: which selected models changed their access between two catalogs.
use Prim.Native.String.{◌++◌ as append}
use free_model_router.Model.Access.{AccessClass, free, free_tier, paid, unknown, omitted, other}
use free_model_router.Prelude.{
  String, ◌≡◌, refl, ap, inl, inr, Bool, false, not, ◌&&◌, Option, none, some, List, [], ◌∷◌, arith,
  if◌then◌else◌, Bool-cases, Result, ok, err,
}
use free_model_router.Model.Route.{ProviderRoute, ProviderModelId, effective_access}
use free_model_router.Model.Snapshot.{CatalogSnapshot, entries}
use free_model_router.Catalog.Pool.{contains, RouteMap}
use free_model_router.Catalog.Reconcile.{in_catalog}
use free_model_router.Prelude.Int.{ltb_ℤ}
use free_model_router.Prelude.Text.{str_eq, str_eq→eq, str_eq_refl}

-- The text of an access class.
abbrev pub access_text : AccessClass → String
access_text free = "Free"
access_text free_tier = "Free-tier"
access_text paid = "Paid"
access_text unknown = "Unknown"
access_text omitted = ""
access_text (other s) = s

-- `routeAccessSignature`; appending to the signature in a loop is appending the rest to each part.
unfoldable pub route_access_signature : List ProviderRoute → String
route_access_signature [] = ""
route_access_signature (r ∷ rs) =
    let rest = route_access_signature rs in
    if r.enabled
    then append (append r.id (append ":" (append (access_text (effective_access r)) ";"))) rest
    else rest

-- `_, ok := lookup(s, id)`
abbrev pub knows : Option CatalogSnapshot → ProviderModelId → Bool
knows none id = false
knows (some s) id = in_catalog (entries s.models) id

-- the test of the loop
abbrev pub has_changed :
    Option CatalogSnapshot → Option CatalogSnapshot → RouteMap → RouteMap → ProviderModelId → Bool
has_changed prev next prev_routes next_routes id =
    knows prev id
    && knows next id
    && not
        (str_eq (route_access_signature (prev_routes id)) (route_access_signature (next_routes id)))

unfoldable pub keep_changed : (ProviderModelId → Bool) → List ProviderModelId → List ProviderModelId
keep_changed test [] = []
keep_changed test (id ∷ ids) =
    let rest = keep_changed test ids in if test id then id ∷ rest else rest

abbrev pub regresses : Option CatalogSnapshot → Option CatalogSnapshot → Bool
regresses (some prev) (some next) = ltb_ℤ next.revision prev.revision
regresses _ _ = false

-- `DetectAccessChanges`
unfoldable pub detect_access_changes :
    Option CatalogSnapshot
    → Option CatalogSnapshot
    → RouteMap
    → RouteMap
    → List ProviderModelId
    → Result (List ProviderModelId)
detect_access_changes prev next prev_routes next_routes selected =
    if regresses prev next
    then err "revision conflict"
    else ok (keep_changed (has_changed prev next prev_routes next_routes) selected)

contains-keep_changed :
    (test : ProviderModelId → Bool) (ids : List ProviderModelId) (id : ProviderModelId)
    → contains (keep_changed test ids) id ≡ (contains ids id && test id)
unfolding contains keep_changed
contains-keep_changed test [] id = refl
contains-keep_changed test (x ∷ ids) id = elim (Bool-cases (str_eq x id)) [
  | inr apart ↦ ground (arith, apart, contains-keep_changed test ids id)
  | inl same ↦ elim (Bool-cases (test x)) [
    | inl hit ↦
        ground (arith, same, hit, ap test (str_eq→eq x id same), contains-keep_changed test ids id)
    | inr miss ↦
        ground (arith, same, miss, ap test (str_eq→eq x id same), contains-keep_changed test ids id)
  ]
]

-- When no revision goes back, the reported ids are exactly the selected ones that both catalogs have
-- and whose signatures differ; in a catalog compared with itself under the same routes nothing changed.
pub detect_access_changes_lem :
    (prev next : Option CatalogSnapshot) (prev_routes next_routes : RouteMap)
    (selected : List ProviderModelId) (id : ProviderModelId)
    → regresses prev next ≡ false
    → (changed : List ProviderModelId) × (detect_access_changes prev next prev_routes next_routes
          selected
        ≡ ok changed)
      × (contains changed id
          ≡ (contains selected id && has_changed prev next prev_routes next_routes id))
      × (has_changed prev next prev_routes prev_routes id ≡ false)
unfolding detect_access_changes
detect_access_changes_lem prev next prev_routes next_routes selected id forward = (
  keep_changed (has_changed prev next prev_routes next_routes) selected,
  ground (arith, forward),
  contains-keep_changed (has_changed prev next prev_routes next_routes) selected id,
  ground (arith, str_eq_refl (route_access_signature (prev_routes id))),
)
