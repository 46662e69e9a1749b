-- ===== src/Router/Filter/Routes.antt =====
-- Which routes of one model `Filter` takes.
use free_model_router.Router.Filter.{
  Candidate, FilterInput, judge, filter_routes, Verdict, skip, exclude, accept, outcome,
  protocol_vetoes, health_vetoes, route_access_allowed, filter_model,
}
use free_model_router.Prelude.{
  ◌≡◌, refl, sym, ap, inl, inr, Bool, true, false, ◌&&◌, ◌||◌, Option, some, List, [], ◌∷◌, arith,
  In, In-append_left, In-append_right, In-append_cases, none,
}
use free_model_router.Model.Route.{
  ProviderRoute, ProviderModel, allows_automatic_routing, ProviderModelId, effective_access,
  effective_capabilities,
}
use free_model_router.Model.Access.{auto_routable, is_paid, is_unknown}
use free_model_router.Model.Capability.{supports}
use mathlib.Core.Path.{subst}

-- The user opted the route in, whatever its access class.
abbrev pub is_opted_in : Option Bool → Bool
is_opted_in (some true) = true
is_opted_in _ = false

-- The access policy: an explicit opt-in, a free or free-tier route, or a paid or an unknown one that
-- the request allows.
abbrev pub access_ok : FilterInput → ProviderRoute → Bool
access_ok input route =
    is_opted_in route.auto_route_allowed
    || auto_routable (effective_access route)
    || (is_paid (effective_access route) && input.allow_paid)
    || (is_unknown (effective_access route) && input.allow_unknown)

-- A model of the catalog may serve the request on a route.
pub record Serves (input : FilterInput) (pm : ProviderModel) (route : ProviderRoute) : Type 0 where
  pub enabled : route.enabled ≡ true
  pub capable : supports (effective_capabilities route pm.base) input.reqs ≡ true
  pub protocol : protocol_vetoes input.protocol_compatible route ≡ false
  pub healthy : health_vetoes input.health route (input.clock route) ≡ false
  pub access : access_ok input route ≡ true

judge_accept :
    (input : FilterInput) (pm : ProviderModel) (route : ProviderRoute)
    → judge input pm route ≡ accept
    → Serves input pm route
unfolding judge allows_automatic_routing route_access_allowed
judge_accept input pm route h = ground arith

accept_judge :
    (input : FilterInput) (pm : ProviderModel) (route : ProviderRoute)
    → Serves input pm route
    → judge input pm route ≡ accept
unfolding judge allows_automatic_routing route_access_allowed
accept_judge input pm route s = ground arith

In-outcome :
    (v : Verdict) (id : ProviderModelId) (pm : ProviderModel) (route : ProviderRoute)
    (c : Candidate)
    → In c (outcome v id pm route).eligible
    → (v ≡ accept) × (c ≡ record { model = pm; route = route })
In-outcome skip id pm route c h = absurd h
In-outcome (exclude r) id pm route c h = absurd h
In-outcome accept id pm route c (inl e) = (refl, e)
In-outcome accept id pm route c (inr h) = absurd h

In-filter_routes :
    (input : FilterInput) (id : ProviderModelId) (pm : ProviderModel) (rs : List ProviderRoute)
    (c : Candidate)
    → In c (filter_routes input id pm rs).eligible
    → (c.model ≡ pm) × In c.route rs × Serves input c.model c.route
unfolding filter_routes
In-filter_routes input id pm [] c h = absurd h
In-filter_routes input id pm (r ∷ rs) c h =
    elim (In-append_cases c (outcome (judge input pm r) id pm r).eligible _ h) [
      | inl l ↦
          let o = In-outcome (judge input pm r) id pm r c l in
          (
            ap (λ x. x.model) o.1,
            inl (ap (λ x. x.route) o.1),
            subst (λ x. Serves input x.model x.route) (sym o.1) (judge_accept input pm r o.0),
          )
      | inr l ↦ let i = In-filter_routes input id pm rs c l in (i.0, inr i.1, i.2)
    ]

filter_routes-In :
    (input : FilterInput) (id : ProviderModelId) (pm : ProviderModel) (rs : List ProviderRoute)
    (route : ProviderRoute)
    → In route rs
    → Serves input pm route
    → In (record { model = pm; route = route }) (filter_routes input id pm rs).eligible
unfolding filter_routes
filter_routes-In input id pm [] route i s = absurd i
filter_routes-In input id pm (r ∷ rs) route (inl e) s =
    In-append_left _ (outcome (judge input pm r) id pm r).eligible _ (
      rw (accept_judge input pm r (subst (Serves input pm) e s), outcome)
        (inl (ap (λ x. record { model = pm; route = x }) e)))
filter_routes-In input id pm (r ∷ rs) route (inr i) s =
    In-append_right _ (outcome (judge input pm r) id pm r).eligible _
      (filter_routes-In input id pm rs route i s)

pub filter_model-In :
    (input : FilterInput) (id : ProviderModelId) (pm : ProviderModel) (route : ProviderRoute)
    → In route (input.routes id)
    → Serves input pm route
    → In (record { model = pm; route = route }) (filter_model input id (some pm)).eligible
unfolding filter_model
filter_model-In input id pm route i s = go (input.routes id) i refl
  where
    go :
        (rs : List ProviderRoute)
        → In route rs
        → input.routes id ≡ rs
        → In (record { model = pm; route = route }) (filter_model input id (some pm)).eligible
    go [] i e = absurd i
    go (r ∷ rs) i e = rw (e, filter_model) (filter_routes-In input id pm (r ∷ rs) route i s)

pub In-filter_model :
    (input : FilterInput) (id : ProviderModelId) (o : Option ProviderModel) (c : Candidate)
    → In c (filter_model input id o).eligible
    → (o ≡ some c.model) × In c.route (input.routes id) × Serves input c.model c.route
unfolding filter_model
In-filter_model input id none c h = absurd h
In-filter_model input id (some pm) c h = go (input.routes id) refl
  where
    go :
        (rs : List ProviderRoute)
        → input.routes id ≡ rs
        → (some pm ≡ some c.model) × In c.route (input.routes id) × Serves input c.model c.route
    go [] e = absurd (rw (e, filter_model) at h)
    go (r ∷ rs) e =
        let found = In-filter_routes input id pm (r ∷ rs) c (rw (e, filter_model) at h) in
        (ap some (sym found.0), subst (In c.route) (sym e) found.1, found.2)
