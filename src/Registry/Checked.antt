-- ===== src/Registry/Checked.antt =====
-- The routes that the registry accepts of one provider.
use free_model_router.Prelude.Dict.{Dict, lookup, assign}
use free_model_router.Prelude.{
  String, ◌≡◌, some, Option, List, Result, true, All, ok, ◌∷◌, sym, false, err, arith, Bool-cases,
  ◌∙◌, [], inl, refl, inr, Result-cases, ap,
}
use free_model_router.Model.Route.{ProviderRoute, ProviderModel}
use free_model_router.Registry.Merge.{
  all_belong, is_empty, checked_routes, check_model, check_models, check_owner, RouteBuilder,
  Accepted,
}
use mathlib.Core.Logic.{ite}
use free_model_router.Model.Identity.{parse}
use mathlib.Core.Path.{subst}
use free_model_router.Prelude.Text.{str_discrete, str_eq→eq, str_eq}
use free_model_router.Catalog.Reconcile.{is_some, ◌>>=◌}

-- What holds of every entry of a map.
abbrev pub Everywhere : {V : Type 0} → (String → V → Type 0) → Dict V → Type 0
Everywhere P m = All (λ e. P e.0 e.1) m

pub ok_injective : {A : Type 0} (a b : A) → ok a ≡ ok b → a ≡ b
ok_injective a b e = cc

some_injective : {V : Type 0} (o : Option V) (v w : V) → o ≡ some v → o ≡ some w → v ≡ w
some_injective o v w e f = cc

pub Everywhere-assign :
    {V : Type 0} (P : String → V → Type 0) (k : String) (v : V) (m : Dict V)
    → P k v
    → Everywhere P m
    → Everywhere P (assign k v m)
unfolding assign
Everywhere-assign P k v [] p h = (p, tt)
Everywhere-assign P k v ((j, w) ∷ m) p h = go (str_discrete j k) (Everywhere-assign P k v m p h.1)
  where
    go :
        (d : Dec (j ≡ k))
        → Everywhere P (assign k v m)
        → Everywhere P (ite d ((j, v) ∷ m) ((j, w) ∷ assign k v m))
    go (yes same) later = (subst (λ x. P x v) (sym same) p, h.1)
    go (no other) later = (h.0, later)

pub Everywhere-lookup :
    {V : Type 0} (P : String → V → Type 0) (k : String) (v : V) (m : Dict V)
    → Everywhere P m
    → lookup k m ≡ some v
    → P k v
unfolding lookup
Everywhere-lookup P k v [] h e = cc
Everywhere-lookup P k v ((j, w) ∷ m) h e =
    go (str_discrete j k) (λ f. Everywhere-lookup P k v m h.1 f) e
  where
    go :
        (d : Dec (j ≡ k))
        → (lookup k m ≡ some v → P k v)
        → ite d (some w) (lookup k m) ≡ some v
        → P k v
    go (yes same) later f =
        subst (P k) (some_injective (some w) w v refl f) (subst (λ x. P x w) same h.0)
    go (no other) later f = later f

-- The routes of a model that a provider owns.
pub record IsOwned (model_id id : String) (r : ProviderRoute) : Type 0 where
  pub model : r.model_id ≡ model_id
  pub provider : r.provider ≡ id

all_belong-All :
    (model_id id : String) (rs : List ProviderRoute)
    → all_belong model_id id rs ≡ true
    → All (IsOwned model_id id) rs
unfolding all_belong
all_belong-All model_id id [] h = tt
all_belong-All model_id id (r ∷ rs) h = (
  record {
    model = str_eq→eq r.model_id model_id (ground (arith, h));
    provider = str_eq→eq r.provider id (ground (arith, h));
  },
  all_belong-All model_id id rs (ground (arith, h)),
)

-- A model in a provider's own namespace, with routes of its own.
pub record Owns (id model_id : String) (rs : List ProviderRoute) : Type 0 where
  pub name : String
  pub parsed : parse model_id ≡ ok (id, name)
  pub routed : is_empty rs ≡ false
  pub owned : All (IsOwned model_id id) rs

checked_routes-Owns :
    (id model_id name : String) (built : Result (List ProviderRoute)) (rs : List ProviderRoute)
    → parse model_id ≡ ok (id, name)
    → checked_routes id model_id built ≡ ok rs
    → Owns id model_id rs
checked_routes-Owns id model_id name (err e) rs p h = cc
checked_routes-Owns id model_id name (ok built) rs p h = elim (Bool-cases (is_empty built)) [
  | inl none_built ↦ cc (rw none_built at h)
  | inr built_some ↦ elim (Bool-cases (all_belong model_id id built)) [
    | inr strays ↦ cc (rw (built_some, strays) at h)
    | inl good ↦
        subst (Owns id model_id) (ok_injective built rs (rw (built_some, good) at h)) (record {
          name = name;
          parsed = p;
          routed = built_some;
          owned = all_belong-All model_id id built good;
        })
  ]
]

check_owner-Owns :
    (id : String) (taken : Dict ProviderModel) (model_id : String) (o : Result (String × String))
    (built : Result (List ProviderRoute)) (rs : List ProviderRoute)
    → parse model_id ≡ o
    → check_owner id taken model_id o built ≡ ok rs
    → Owns id model_id rs
check_owner-Owns id taken model_id (err e) built rs p h = cc
check_owner-Owns id taken model_id (ok (owner, name)) built rs p h =
    elim (Bool-cases (str_eq owner id)) [
      | inr other ↦ cc (rw other at h)
      | inl same ↦ elim (Bool-cases (is_some (lookup model_id taken))) [
        | inl twice ↦ cc (rw (same, twice) at h)
        | inr once ↦
            checked_routes-Owns id model_id name built rs
              (p ∙ ap (λ x. ok (x, name)) (str_eq→eq owner id same)) (rw (same, once) at h)
      ]
    ]

check_model-Owns :
    (id : String) (build : RouteBuilder) (taken : Dict ProviderModel) (model_id : String)
    (pm : ProviderModel) (rs : List ProviderRoute)
    → check_model id build taken model_id pm ≡ ok rs
    → Owns id model_id rs
unfolding check_model
check_model-Owns id build taken model_id pm rs h = elim (Bool-cases (str_eq pm.id model_id)) [
  | inr other ↦ cc (rw other at h)
  | inl same ↦ check_owner-Owns id taken model_id (parse model_id) (build pm) rs refl (rw same at h)
]

pub check_models-Owns :
    (id : String) (build : RouteBuilder) (taken : Dict ProviderModel) (acc : Accepted)
    (models : Dict ProviderModel) (out : Accepted)
    → Everywhere (λ k v. Owns id k v.1) acc
    → check_models id build taken acc models ≡ ok out
    → Everywhere (λ k v. Owns id k v.1) out
unfolding check_models
check_models-Owns id build taken acc [] out v h =
    subst (Everywhere (λ k v. Owns id k v.1)) (ok_injective acc out h) v
check_models-Owns id build taken acc ((model_id, pm) ∷ rest) out v h =
    elim (Result-cases (check_model id build taken model_id pm)) [
      | inr (m, e) ↦ cc (rw (e, ◌>>=◌) at h)
      | inl (rs, e) ↦
          check_models-Owns id build taken (assign model_id (pm, rs) acc) rest out
            (Everywhere-assign (λ k v. Owns id k v.1) model_id (pm, rs) acc
              (check_model-Owns id build taken model_id pm rs e) v)
            (rw (e, ◌>>=◌) at h)
    ]
