-- ===== src/Probe/Targets.antt =====
-- `EligibleTargets` against an independent description of what a cycle probes.
use free_model_router.Probe.Eligible.{
  Target, is_probeable, route_targets, model_targets, pool_targets, eligible_targets,
}
use free_model_router.Router.Filter.Eligible.{
  contains-cons_self, contains-cons_other, contains-tail, contains-nil,
}
use free_model_router.Prelude.Dict.{lookup, Dict}
use free_model_router.Catalog.Pool.{contains, RouteMap}
use free_model_router.Health.{Manager}
use free_model_router.Prelude.{
  ℕ, ◌≡◌, refl, sym, ap, ◌∙◌, ◌↔◌, inl, inr, true, false, Option, none, some, List, [], ◌∷◌, arith,
  Bool-cases, In, In-append_left, In-append_right, In-append_cases,
}
use free_model_router.Model.Route.{ProviderRoute, ProviderModelId, ProviderModel}
use free_model_router.Model.Snapshot.{CatalogSnapshot, entries}
use mathlib.Core.Path.{subst}
use mathlib.Core.Bool.{false≢true}
use free_model_router.Prelude.Text.{str_eq, str_eq→eq}

module _ (h : Option Manager) (clock : ProviderRoute → ℕ) (models : Dict ProviderModel)
    (routes : RouteMap) where
  In-route_targets :
      (pm : ProviderModel) (rs : List ProviderRoute) (t : Target)
      → In t (route_targets h clock pm rs)
      → (t.model ≡ pm) × In t.route rs × (is_probeable h clock t.route ≡ true)
  unfolding route_targets
  In-route_targets pm [] t i = absurd i
  In-route_targets pm (r ∷ rs) t i = elim (Bool-cases (is_probeable h clock r)) [
    | inr miss ↦
        let found = In-route_targets pm rs t (rw (miss, route_targets) at i) in
        (found.0, inr found.1, found.2)
    | inl hit ↦ elim (rw (hit, route_targets) at i) [
      | inl e ↦ (
        ap (λ x. x.model) e,
        inl (ap (λ x. x.route) e),
        ap (λ x. is_probeable h clock x.route) e ∙ hit,
      )
      | inr later ↦ let found = In-route_targets pm rs t later in (found.0, inr found.1, found.2)
    ]
  ]

  route_targets-In :
      (pm : ProviderModel) (rs : List ProviderRoute) (r : ProviderRoute)
      → In r rs
      → is_probeable h clock r ≡ true
      → In (record { route = r; model = pm }) (route_targets h clock pm rs)
  unfolding route_targets
  route_targets-In pm [] r i ok_r = absurd i
  route_targets-In pm (x ∷ rs) r (inl e) ok_r =
      rw (subst (λ y. is_probeable h clock y ≡ true) e ok_r, route_targets)
        (inl (ap (λ y. record { route = y; model = pm }) e))
  route_targets-In pm (x ∷ rs) r (inr later) ok_r = elim (Bool-cases (is_probeable h clock x)) [
    | inl hit ↦ rw (hit, route_targets) (inr (route_targets-In pm rs r later ok_r))
    | inr miss ↦ rw (miss, route_targets) (route_targets-In pm rs r later ok_r)
  ]

  -- An id of the list whose model the catalog knows, and a route of it that passes the guards.
  pub record IsTarget (pool : List ProviderModelId) (t : Target) : Type 0 where
    pub id : ProviderModelId
    pub selected : contains pool id ≡ true
    pub in_models : lookup id models ≡ some t.model
    pub routed : In t.route (routes id)
    pub probeable : is_probeable h clock t.route ≡ true

  IsTarget-cons :
      (x : ProviderModelId) (pool : List ProviderModelId) (t : Target)
      → IsTarget pool t
      → IsTarget (x ∷ pool) t
  unfolding contains
  IsTarget-cons x pool t s = record {
    id = s.id;
    selected = let k = s.selected in ground (arith, k);
    in_models = s.in_models;
    routed = s.routed;
    probeable = s.probeable;
  }

  In-model_targets :
      (x : ProviderModelId) (pool : List ProviderModelId) (o : Option ProviderModel) (t : Target)
      → lookup x models ≡ o
      → In t (model_targets h clock o (routes x))
      → IsTarget (x ∷ pool) t
  In-model_targets x pool none t e i = absurd i
  In-model_targets x pool (some pm) t e i =
      let found = In-route_targets pm (routes x) t i in
      record {
        id = x;
        selected = contains-cons_self x pool;
        in_models = e ∙ ap some (sym found.0);
        routed = found.1;
        probeable = found.2;
      }

  In-pool_targets :
      (seen pool : List ProviderModelId) (t : Target)
      → In t (pool_targets h clock models routes seen pool)
      → IsTarget pool t
  unfolding pool_targets
  In-pool_targets seen [] t i = absurd i
  In-pool_targets seen (x ∷ pool) t i = elim (Bool-cases (contains seen x)) [
    | inl old ↦ IsTarget-cons x pool t (In-pool_targets seen pool t (rw (old, pool_targets) at i))
    | inr new ↦
        elim (In-append_cases t (model_targets h clock (lookup x models) (routes x)) _
          (rw (new, pool_targets) at i)) [
            | inl here ↦ In-model_targets x pool (lookup x models) t refl here
            | inr later ↦ IsTarget-cons x pool t (In-pool_targets (x ∷ seen) pool t later)
          ]
  ]

  pool_targets-In :
      (seen pool : List ProviderModelId) (id : ProviderModelId) (pm : ProviderModel)
      (r : ProviderRoute)
      → contains pool id ≡ true
      → contains seen id ≡ false
      → lookup id models ≡ some pm
      → In r (routes id)
      → is_probeable h clock r ≡ true
      → In (record { route = r; model = pm }) (pool_targets h clock models routes seen pool)
  unfolding pool_targets
  pool_targets-In seen [] id pm r listed fresh known i p =
      absurd (false≢true (sym (contains-nil id) ∙ listed))
  pool_targets-In seen (x ∷ pool) id pm r listed fresh known i p =
      elim (Bool-cases (contains seen x)) [
        | inl old ↦
            rw (old, pool_targets)
              (pool_targets-In seen pool id pm r
                (contains-tail seen x pool id listed fresh (inl old)) fresh known i p)
        | inr new ↦ elim (Bool-cases (str_eq x id)) [
          | inl same ↦
              rw (new, pool_targets)
                (In-append_left _ (model_targets h clock (lookup x models) (routes x)) _
                  (rw (str_eq→eq x id same, known) (route_targets-In pm (routes id) r i p)))
          | inr other ↦
              rw (new, pool_targets)
                (In-append_right _ (model_targets h clock (lookup x models) (routes x)) _ (
                  pool_targets-In (x ∷ seen) pool id pm r
                    (contains-tail seen x pool id listed fresh (inr other))
                    (contains-cons_other x seen id other fresh) known i p))
        ]
      ]

-- With a catalog, the targets of a probe cycle are exactly the routes of selected models of the
-- catalog that are enabled, that their probe policy allows and whose health does not veto them.
pub eligible_targets_iff :
    (snap : CatalogSnapshot) (pool : List ProviderModelId) (routes : RouteMap) (h : Option Manager)
    (clock : ProviderRoute → ℕ) (t : Target)
    → In t (eligible_targets (some snap) pool routes h clock)
      ↔ IsTarget h clock (entries snap.models) routes pool t
unfolding eligible_targets
eligible_targets_iff snap pool routes h clock t = (
  λ i. In-pool_targets h clock (entries snap.models) routes [] pool t i,
  λ s.
      pool_targets-In h clock (entries snap.models) routes [] pool s.id t.model t.route s.selected
        (contains-nil s.id) s.in_models s.routed s.probeable,
)
