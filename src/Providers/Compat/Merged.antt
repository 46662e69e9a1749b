-- ===== src/Providers/Compat/Merged.antt =====
-- The catalog of a configured endpoint in the registry, with the routes that internal/app/providers.go builds for it.
use Prim.Native.String.{◌++◌ as append}
use free_model_router.Config.{ProviderConfig}
use free_model_router.Model.Identity.{matches_provider, parse, new_provider_model_id}
use free_model_router.Model.Identity.Keys.{contains_colons, new_route_id}
use free_model_router.Model.Identity.RoundTrip.{parse-new_provider_model_id}
use free_model_router.Model.Route.{ProviderModel}
use free_model_router.Prelude.Dict.{Dict, lookup}
use free_model_router.Prelude.Text.{str_eq, str_eq_refl}
use free_model_router.Prelude.{
  String, ◌≡◌, refl, inl, inr, true, false, none, [], ◌∷◌, Result, ok, err, Result-cases, arith,
  Option-cases, ◌∙◌, Bool, some, ◌↔◌,
}
use free_model_router.Providers.Compat.{
  rename_all, rename_parsed, renamed, generic_routes, generic_route, returned, compat_discover,
  renamed_snapshot,
}
use free_model_router.Registry.Checked.{Everywhere, Everywhere-assign, ok_injective}
use free_model_router.Registry.Merge.{
  checked_routes, check_model, all_belong, check_models, Accepted, RoutedCatalog, add_accepted,
}
use mathlib.Core.Path.{subst}
use free_model_router.Model.Snapshot.{CatalogSnapshot, entries}
use free_model_router.Registry.{Backend, discover_one}
use free_model_router.Gateway.Errors.{is_nil}

returned_injective : {A : Type 0} (a b : A) → returned a ≡ returned b → a ≡ b
returned_injective a b e = cc

-- A model in the namespace of the endpoint, whose id the endpoint's id can begin.
record IsNamed (id key : String) (pm : ProviderModel) : Type 0 where
  segment : String
  valid : matches_provider id ≡ true
  same : pm.id ≡ key
  parsed : parse key ≡ ok (id, segment)

new_provider_model_id-matches :
    (prov mdl id : String) → new_provider_model_id prov mdl ≡ ok id → matches_provider prov ≡ true
unfolding new_provider_model_id
new_provider_model_id-matches prov mdl id h = ground (arith, h)

renamed-IsNamed :
    (id segment new : String) (out after : Dict ProviderModel) (pm : ProviderModel)
    → new_provider_model_id id segment ≡ ok new
    → Everywhere (IsNamed id) out
    → renamed out pm (ok new) ≡ ok after
    → Everywhere (IsNamed id) after
renamed-IsNamed id segment new out after pm made good h = elim (Option-cases (lookup new out)) [
  | inr (taken, e) ↦ cc (rw (e, renamed) at h)
  | inl e ↦ subst (Everywhere (IsNamed id)) (ok_injective _ after (rw (e, renamed) at h)) (
      Everywhere-assign (IsNamed id) new (record pm { id = new }) out
        (record {
          segment = segment;
          valid = new_provider_model_id-matches id segment new made;
          same = refl;
          parsed = parse-new_provider_model_id id segment new made;
        })
        good)
]

rename_parsed-IsNamed :
    (id : String) (out after : Dict ProviderModel) (pm : ProviderModel)
    (p : Result (String × String))
    → Everywhere (IsNamed id) out
    → rename_parsed id out pm p ≡ ok after
    → Everywhere (IsNamed id) after
rename_parsed-IsNamed id out after pm (err e) good h = cc
rename_parsed-IsNamed id out after pm (ok p) good h =
    elim (Result-cases (new_provider_model_id id p.1)) [
      | inl (new, e) ↦ renamed-IsNamed id p.1 new out after pm e good (rw e at h)
      | inr (x, e) ↦ cc (rw e at h)
    ]

rename_all-IsNamed :
    (id : String) (out after models : Dict ProviderModel)
    → Everywhere (IsNamed id) out
    → rename_all id out models ≡ ok after
    → Everywhere (IsNamed id) after
unfolding rename_all
rename_all-IsNamed id out after [] good h =
    subst (Everywhere (IsNamed id)) (ok_injective out after h) good
rename_all-IsNamed id out after ((key, pm) ∷ models) good h =
    elim (Result-cases (rename_parsed id out pm (parse pm.id))) [
      | inl (next, e) ↦
          rename_all-IsNamed id next after models
            (rename_parsed-IsNamed id out next pm (parse pm.id) good e) (rw e at h)
      | inr (x, e) ↦ cc (rw e at h)
    ]

-- An upstream id that the endpoint's routes can carry.
abbrev pub IsRoutable : String → Type 0
IsRoutable id = (str_eq id "" ≡ false) × (contains_colons id ≡ false)

new_route_id-IsRoutable : (name mdl id : String) → new_route_id name mdl ≡ ok id → IsRoutable mdl
unfolding new_route_id
new_route_id-IsRoutable name mdl id h = (ground (arith, h), ground (arith, h))

IsRoutable-new_route_id :
    (name mdl : String)
    → matches_provider name ≡ true
    → IsRoutable mdl
    → (id : String) × (new_route_id name mdl ≡ ok id)
unfolding new_route_id
IsRoutable-new_route_id name mdl valid h =
    (append name (append "::" mdl), rw (valid, h.0, h.1) refl)

-- The check of a model that stands in the endpoint's namespace and was not seen before is that of its routes.
check_model-IsNamed :
    (c : ProviderConfig) (taken : Dict ProviderModel) (key : String) (pm : ProviderModel)
    → IsNamed c.id key pm
    → lookup key taken ≡ none
    → check_model c.id (generic_routes c) taken key pm
      ≡ checked_routes c.id key (generic_routes c pm)
unfolding check_model
check_model-IsNamed c taken key pm d fresh =
    rw (d.same, str_eq_refl key, d.parsed, str_eq_refl c.id, fresh) refl

checked_routes-generic :
    (c : ProviderConfig) (key : String) (pm : ProviderModel) (r : Result String)
    → pm.id ≡ key
    → (checked_routes c.id key (generic_route c pm r) ≡ generic_route c pm r)
unfolding all_belong
checked_routes-generic c key pm (err e) same = refl
checked_routes-generic c key pm (ok id) same = rw (same, str_eq_refl key, str_eq_refl c.id) refl

-- No model of a provider stands in a map.
abbrev pub IsAbsent : String → Dict ProviderModel → Type 0
IsAbsent id taken = (key name : String) → parse key ≡ ok (id, name) → lookup key taken ≡ none

abbrev pub AllRoutable : Dict ProviderModel → Type 0
AllRoutable = Everywhere (λ _ pm. IsRoutable pm.upstream_id)

checked-generic :
    (c : ProviderConfig) (taken : Dict ProviderModel) (key : String) (pm : ProviderModel)
    → IsNamed c.id key pm
    → IsAbsent c.id taken
    → check_model c.id (generic_routes c) taken key pm
      ≡ generic_route c pm (new_route_id c.id pm.upstream_id)
unfolding generic_routes
checked-generic c taken key pm d absent =
    check_model-IsNamed c taken key pm d (absent key d.segment d.parsed)
    ∙ checked_routes-generic c key pm (new_route_id c.id pm.upstream_id) d.same

check_models-ok :
    (c : ProviderConfig) (taken : Dict ProviderModel) (ms : Dict ProviderModel) (acc : Accepted)
    → Everywhere (IsNamed c.id) ms
    → IsAbsent c.id taken
    → AllRoutable ms
    → (a : Accepted) × (check_models c.id (generic_routes c) taken acc ms ≡ ok a)
unfolding check_models
check_models-ok c taken [] acc named absent all = (acc, refl)
check_models-ok c taken ((key, pm) ∷ ms) acc named absent all =
    let made = IsRoutable-new_route_id c.id pm.upstream_id named.0.valid all.0 in
    rw (checked-generic c taken key pm named.0 absent, made.1)
      (check_models-ok c taken ms _ named.1 absent all.1)

check_models-AllRoutable :
    (c : ProviderConfig) (taken : Dict ProviderModel) (ms : Dict ProviderModel) (acc a : Accepted)
    → Everywhere (IsNamed c.id) ms
    → IsAbsent c.id taken
    → check_models c.id (generic_routes c) taken acc ms ≡ ok a
    → AllRoutable ms
unfolding check_models
check_models-AllRoutable c taken [] acc a named absent h = tt
check_models-AllRoutable c taken ((key, pm) ∷ ms) acc a named absent h =
    elim (Result-cases (new_route_id c.id pm.upstream_id)) [
      | inl (id, e) ↦ (
        new_route_id-IsRoutable c.id pm.upstream_id id e,
        check_models-AllRoutable c taken ms _ a named.1 absent
            (rw (checked-generic c taken key pm named.0 absent, e) at h),
      )
      | inr (x, e) ↦ cc (rw (checked-generic c taken key pm named.0 absent, e) at h)
    ]

discovered-IsNamed :
    (id : String) (s found : CatalogSnapshot) (made : Result (Dict ProviderModel))
    → rename_all id [] (entries s.models) ≡ made
    → renamed_snapshot s made ≡ returned found
    → Everywhere (IsNamed id) (entries found.models)
discovered-IsNamed id s found (err e) e1 h = cc
discovered-IsNamed id s found (ok models) e1 h =
    subst (λ t. Everywhere (IsNamed id) (entries t.models)) (returned_injective _ found h)
      (rename_all-IsNamed id [] models (entries s.models) tt e1)

-- If the models of a configured endpoint could be discovered and the merged catalog holds no model of the endpoint yet,
-- then the registry takes them, with the routes that are built for them, exactly when no upstream id among them is
-- empty or contains "::".
pub discover_one-generic_iff :
    {R : Type 0} (c : ProviderConfig) (s found : CatalogSnapshot) (out : RoutedCatalog)
    (ctx_err : Bool) (b : Backend R)
    → compat_discover c.id (returned s) ≡ returned found
    → is_nil b.discover_error ≡ true
    → b.discovered ≡ some found
    → IsAbsent c.id out.models
    → ((m : RoutedCatalog) × (discover_one ctx_err out c.id
            (some (record { backend = b; build = generic_routes c }))
          ≡ ok m))
      ↔ AllRoutable (entries found.models)
unfolding compat_discover
discover_one-generic_iff c s found out ctx_err b discovered nil_error given absent =
    let named = discovered-IsNamed c.id s found _ refl discovered in
    rw (nil_error, given)
      (
        λ h.
            elim (Result-cases
              (check_models c.id (generic_routes c) out.models [] (entries found.models))) [
                | inl (a, e) ↦
                    check_models-AllRoutable c out.models (entries found.models) [] a named absent e
                | inr (x, e) ↦ cc (rw e at h.1)
              ],
        λ all.
            let a = check_models-ok c out.models (entries found.models) [] named absent all in
            (add_accepted out c.id found.created_at a.0, rw (a.1) refl),
      )
