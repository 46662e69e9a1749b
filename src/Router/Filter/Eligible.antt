-- ===== src/Router/Filter/Eligible.antt =====
-- `Filter` against an independent description of who is eligible.
use free_model_router.Router.Filter.{
  Candidate, FilterInput, ids, filter_model, filter_ids, filter, filter_catalog,
}
use free_model_router.Prelude.{
  ◌≡◌, refl, sym, ap, inl, inr, true, false, some, List, [], ◌∷◌, arith, In, In-append_left,
  In-append_right, In-append_cases, Bool-cases, ◌⊎◌, ◌∙◌, ◌↔◌,
}
use free_model_router.Model.Route.{ProviderRoute, ProviderModel, ProviderModelId}
use free_model_router.Prelude.Dict.{Dict, lookup}
use free_model_router.Catalog.Pool.{contains}
use mathlib.Core.Path.{subst}
use free_model_router.Prelude.Text.{str_eq_refl, str_eq, str_eq→eq}
use mathlib.Core.Bool.{false≢true}
use free_model_router.Model.Snapshot.{CatalogSnapshot, entries}
use free_model_router.Router.Filter.Routes.{Serves, In-filter_model, filter_model-In}

pub record IsEligible (input : FilterInput) (models : Dict ProviderModel) (c : Candidate)
    : Type 0 where
  pub id : ProviderModelId
  pub listed : contains (ids input) id ≡ true
  pub in_models : lookup id models ≡ some c.model
  pub routed : In c.route (input.routes id)
  pub serves : Serves input c.model c.route

-- Where a candidate comes from: an id of the list that the catalog and the route map know.
abbrev Source : FilterInput → Dict ProviderModel → List ProviderModelId → Candidate → Type 0
Source input models l c =
    (id : ProviderModelId) × (contains l id ≡ true)
    × (lookup id models ≡ some c.model)
    × In c.route (input.routes id)
    × Serves input c.model c.route

Source-cons :
    (input : FilterInput) (models : Dict ProviderModel) (x : ProviderModelId)
    (l : List ProviderModelId) (c : Candidate)
    → Source input models l c
    → Source input models (x ∷ l) c
unfolding contains
Source-cons input models x l c s = (s.0, ground arith, s.2, s.3, s.4)

pub contains-cons_self :
    (x : ProviderModelId) (l : List ProviderModelId) → contains (x ∷ l) x ≡ true
unfolding contains
contains-cons_self x l = ground (arith, str_eq_refl x)

In-filter_ids :
    (input : FilterInput) (models : Dict ProviderModel) (seen l : List ProviderModelId)
    (c : Candidate)
    → In c (filter_ids input models seen l).eligible
    → Source input models l c
unfolding filter_ids
In-filter_ids input models seen [] c h = absurd h
In-filter_ids input models seen (x ∷ l) c h = elim (Bool-cases (contains seen x)) [
  | inl old ↦
      Source-cons input models x l c
        (In-filter_ids input models seen l c (rw (old, filter_ids) at h))
  | inr new ↦
      elim (In-append_cases c (filter_model input x (lookup x models)).eligible _
        (rw (new, filter_ids) at h)) [
          | inl here ↦
              let found = In-filter_model input x (lookup x models) c here in
              (x, contains-cons_self x l, found.0, found.1, found.2)
          | inr later ↦
              Source-cons input models x l c (In-filter_ids input models (x ∷ seen) l c later)
        ]
]

pub contains-nil : (id : ProviderModelId) → contains [] id ≡ false
unfolding contains
contains-nil id = refl

pub contains-cons_other :
    (x : ProviderModelId) (l : List ProviderModelId) (id : ProviderModelId)
    → str_eq x id ≡ false
    → contains l id ≡ false
    → contains (x ∷ l) id ≡ false
unfolding contains
contains-cons_other x l id other h = ground arith

-- An id that is not the head of a list is in its tail.
pub contains-tail :
    (seen : List ProviderModelId) (x : ProviderModelId) (l : List ProviderModelId)
    (id : ProviderModelId)
    → contains (x ∷ l) id ≡ true
    → contains seen id ≡ false
    → (contains seen x ≡ true) ⊎ (str_eq x id ≡ false)
    → contains l id ≡ true
unfolding contains
contains-tail seen x l id listed fresh (inr other) = ground arith
contains-tail seen x l id listed fresh (inl old) = elim (Bool-cases (str_eq x id)) [
  | inl same ↦
      absurd
        (false≢true (sym fresh ∙ subst (λ y. contains seen y ≡ true) (str_eq→eq x id same) old))
  | inr other ↦ ground arith
]

filter_ids-In :
    (input : FilterInput) (models : Dict ProviderModel) (seen l : List ProviderModelId)
    (id : ProviderModelId) (pm : ProviderModel) (route : ProviderRoute)
    → contains l id ≡ true
    → contains seen id ≡ false
    → lookup id models ≡ some pm
    → In route (input.routes id)
    → Serves input pm route
    → In (record { model = pm; route = route }) (filter_ids input models seen l).eligible
unfolding filter_ids
filter_ids-In input models seen [] id pm route listed fresh known i s =
    absurd (false≢true (sym (contains-nil id) ∙ listed))
filter_ids-In input models seen (x ∷ l) id pm route listed fresh known i s =
    elim (Bool-cases (contains seen x)) [
      | inl old ↦
          rw (old, filter_ids)
            (filter_ids-In input models seen l id pm route
              (contains-tail seen x l id listed fresh (inl old)) fresh known i s)
      | inr new ↦ elim (Bool-cases (str_eq x id)) [
        | inl same ↦
            rw (new, filter_ids)
              (In-append_left _ (filter_model input x (lookup x models)).eligible _
                (rw (str_eq→eq x id same, known) (filter_model-In input id pm route i s)))
        | inr other ↦
            rw (new, filter_ids)
              (In-append_right _ (filter_model input x (lookup x models)).eligible _ (
                filter_ids-In input models (x ∷ seen) l id pm route
                  (contains-tail seen x l id listed fresh (inr other))
                  (contains-cons_other x seen id other fresh) known i s))
      ]
    ]

filter-some :
    (input : FilterInput) (snap : CatalogSnapshot)
    → input.catalog ≡ some snap
    → filter input ≡ filter_ids input (entries snap.models) [] (ids input)
unfolding filter
filter-some input snap e = ap (filter_catalog input) e

-- With a catalog, the candidates that `Filter` returns are exactly the eligible ones: the models of
-- the catalog that the request names, on a route of theirs that is enabled, supports the requirements,
-- passes the protocol and the health check and that the access policy lets through.
pub filter_iff :
    (input : FilterInput) (snap : CatalogSnapshot) (c : Candidate)
    → input.catalog ≡ some snap
    → In c (filter input).eligible ↔ IsEligible input (entries snap.models) c
filter_iff input snap c e = (
  λ h.
      let s =
        In-filter_ids input (entries snap.models) [] (ids input) c
          (subst (λ r. In c r.eligible) (filter-some input snap e) h) in
      record { id = s.0; listed = s.1; in_models = s.2; routed = s.3; serves = s.4 },
  λ h.
      subst (λ r. In c r.eligible) (sym (filter-some input snap e))
        (filter_ids-In input (entries snap.models) [] (ids input) h.id c.model c.route h.listed
          (contains-nil h.id) h.in_models h.routed h.serves),
)
