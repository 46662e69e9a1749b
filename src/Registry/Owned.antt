-- ===== src/Registry/Owned.antt =====
-- Every route of the merged catalog belongs to the provider that offered it, and is dispatched to it.
use free_model_router.Prelude.Dict.{Dict, lookup, assign}
use free_model_router.Prelude.{
  String, ◌≡◌, some, Option, List, ok, ◌∷◌, Bool-cases, ◌∙◌, [], inl, refl, inr, Result-cases, ap,
  Bool, In, ◌||◌, none, All-In,
}
use free_model_router.Model.Route.{ProviderRoute}
use free_model_router.Registry.{
  Ready, discover_all, discover_routed_catalog, discover_one, chat_completion,
}
use free_model_router.Registry.Merge.{
  check_models, merge_accepted, Accepted, RoutedCatalog, ProviderAvailability, merge_snapshot,
  degrade, add_provider, no_catalog,
}
use mathlib.Core.Path.{subst}
use free_model_router.Prelude.Text.{str_eq_refl}
use free_model_router.Catalog.Reconcile.{◌>>=◌}
use free_model_router.Model.Snapshot.{CatalogSnapshot, entries}
use free_model_router.Gateway.Errors.{is_nil, is_canceled}
use free_model_router.Registry.Checked.{
  Everywhere, ok_injective, Everywhere-assign, Everywhere-lookup, IsOwned, Owns, check_models-Owns,
}

module _ {R : Type 0} (reg : Dict (Ready R)) where
  -- A model of a configured provider, with routes of its own.
  pub record IsServed (model_id : String) (rs : List ProviderRoute) : Type 0 where
    pub id : String
    pub ready : Ready R
    pub configured : lookup id reg ≡ some ready
    pub owns : Owns id model_id rs

  merge_accepted-IsServed :
      (out : RoutedCatalog) (id : String) (e : Ready R) (acc : Accepted)
      → lookup id reg ≡ some e
      → Everywhere (λ k v. Owns id k v.1) acc
      → Everywhere IsServed out.routes
      → Everywhere IsServed (merge_accepted out acc).routes
  unfolding merge_accepted
  merge_accepted-IsServed out id e [] k v h = h
  merge_accepted-IsServed out id e ((model_id, x) ∷ rest) k v h =
      merge_accepted-IsServed
        (record out {
          models = assign model_id x.0 out.models;
          routes = assign model_id x.1 out.routes;
        })
        id e rest k v.1
        (Everywhere-assign IsServed model_id x.1 out.routes
          (record { id = id; ready = e; configured = k; owns = v.0 }) h)

  merge_snapshot-IsServed :
      (id : String) (e : Ready R) (out : RoutedCatalog) (o : Option CatalogSnapshot)
      (next : RoutedCatalog)
      → lookup id reg ≡ some e
      → Everywhere IsServed out.routes
      → merge_snapshot id e.build out o ≡ ok next
      → Everywhere IsServed next.routes
  merge_snapshot-IsServed id e out none next k v h = cc
  merge_snapshot-IsServed id e out (some snap) next k v h =
      elim (Result-cases (check_models id e.build out.models [] (entries snap.models))) [
        | inr (m, f) ↦ cc (rw (f, ◌>>=◌) at h)
        | inl (acc, f) ↦
            subst (λ c. Everywhere IsServed c.routes) (ok_injective _ next (rw (f, ◌>>=◌) at h))
              (merge_accepted-IsServed _ id e acc k
                (check_models-Owns id e.build out.models [] (entries snap.models) acc tt f) v)
      ]

  degrade-IsServed :
      (out : RoutedCatalog) (o : Option ProviderAvailability) (next : RoutedCatalog)
      → Everywhere IsServed out.routes
      → degrade out o ≡ ok next
      → Everywhere IsServed next.routes
  degrade-IsServed out none next v h = cc
  degrade-IsServed out (some a) next v h =
      subst (λ c. Everywhere IsServed c.routes) (ok_injective (add_provider out a) next h) v

  discover_one-IsServed :
      (ctx_err : Bool) (out : RoutedCatalog) (id : String) (o : Option (Ready R))
      (next : RoutedCatalog)
      → lookup id reg ≡ o
      → Everywhere IsServed out.routes
      → discover_one ctx_err out id o ≡ ok next
      → Everywhere IsServed next.routes
  discover_one-IsServed ctx_err out id none next k v h = cc
  discover_one-IsServed ctx_err out id (some e) next k v h =
      elim (Bool-cases (is_nil e.backend.discover_error)) [
        | inl fine ↦ merge_snapshot-IsServed id e out e.backend.discovered next k v (rw fine at h)
        | inr failed ↦ elim (Bool-cases (ctx_err || is_canceled e.backend.discover_error)) [
          | inl stopped ↦ cc (rw (failed, stopped) at h)
          | inr goes ↦ degrade-IsServed out _ next v (rw (failed, goes) at h)
        ]
      ]

  discover_all-IsServed :
      (ctx_err : String → Bool) (out : RoutedCatalog) (ids : List String) (cat : RoutedCatalog)
      → Everywhere IsServed out.routes
      → discover_all ctx_err reg out ids ≡ ok cat
      → Everywhere IsServed cat.routes
  unfolding discover_all
  discover_all-IsServed ctx_err out [] cat v h =
      subst (λ c. Everywhere IsServed c.routes) (ok_injective out cat h) v
  discover_all-IsServed ctx_err out (id ∷ ids) cat v h =
      elim (Result-cases (discover_one (ctx_err id) out id (lookup id reg))) [
        | inr (m, e) ↦ cc (rw (e, ◌>>=◌) at h)
        | inl (next, e) ↦
            discover_all-IsServed ctx_err next ids cat
              (discover_one-IsServed (ctx_err id) out id (lookup id reg) next refl v e)
              (rw (e, ◌>>=◌) at h)
      ]

  -- Every route of a merged catalog is one of the model under whose id it stands, in the namespace of
  -- a configured provider, and a request for it is dispatched to exactly this provider, never refused
  -- and never sent to another.
  pub discover_routed_catalog-chat_completion :
      (ctx_err : String → Bool) (cat : RoutedCatalog) (model_id : String) (rs : List ProviderRoute)
      (r : ProviderRoute)
      → discover_routed_catalog ctx_err reg ≡ ok cat
      → lookup model_id cat.routes ≡ some rs
      → In r rs
      → (r.model_id ≡ model_id)
        × ((e : Ready R) × (lookup r.provider reg ≡ some e)
            × (chat_completion reg r ≡ ok (e.backend.chat r)))
  unfolding discover_routed_catalog chat_completion
  discover_routed_catalog-chat_completion ctx_err cat model_id rs r found known i =
      let s =
        Everywhere-lookup IsServed model_id rs cat.routes
          (discover_all-IsServed ctx_err no_catalog _ cat tt found) known in
      let own = All-In (IsOwned model_id s.id) r rs s.owns.owned i in
      let configured = ap (λ x. lookup x reg) own.provider ∙ s.configured in
      (
        own.model,
        (
          s.ready,
          configured,
          rw (configured, own.model, s.owns.parsed, own.provider, str_eq_refl s.id) refl,
        ),
      )
