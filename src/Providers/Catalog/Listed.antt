-- ===== src/Providers/Catalog/Listed.antt =====
-- What the models of a catalog have to do with the entries that an upstream listed, entry by entry.
use free_model_router.Model.Route.{ProviderModel}
use free_model_router.Prelude.Dict.{Dict, lookup, assign, lookup-assign}
use free_model_router.Prelude.Text.{str_eq, str_eq_refl, str_discrete}
use free_model_router.Prelude.{
  String, ◌≡◌, ◌≢◌, refl, sym, ap, ◌∙◌, inl, inr, true, false, not, Option, none, some, List, ◌∷◌,
  arith, Bool-cases, In,
}
use free_model_router.Providers.Wire.{Outcome, returned, failed}
use free_model_router.Providers.Catalog.{CatalogEntry, Coding, add_model, store_model}
use mathlib.Core.Option.{some-ne-none, some-injective}
use mathlib.Core.Path.{subst}
use mathlib.Core.Bool.{false≢true}

lookup_hit :
    (id : String) (pm : ProviderModel) (models : Dict ProviderModel)
    → lookup id (assign id pm models) ≡ some pm
lookup_hit id pm models = ground (arith, lookup-assign id id pm models)

lookup_miss :
    (id other : String) (pm : ProviderModel) (models : Dict ProviderModel)
    → id ≢ other
    → lookup other (assign id pm models) ≡ lookup other models
lookup_miss id other pm models n = ground (arith, n, lookup-assign id other pm models)

module _ (k : Coding) (entry : CatalogEntry → Option ProviderModel) where
  -- The models are those of the entries seen, each under its own id, and two upstream ids never share one.
  pub record IsListed (seen : List CatalogEntry) (models : Dict ProviderModel) : Type 0 where
    pub sound :
        (id : String) (pm : ProviderModel)
        → lookup id models ≡ some pm
        → (e : CatalogEntry) × In e seen × (entry e ≡ some pm) × (pm.id ≡ id)
    pub complete :
        (e : CatalogEntry) (pm : ProviderModel)
        → In e seen
        → entry e ≡ some pm
        → (stored : ProviderModel) × (lookup pm.id models ≡ some stored)
          × (stored.upstream_id ≡ pm.upstream_id)

  -- Two entries whose models have one id and different upstream ids.
  pub record IsCollision (seen : List CatalogEntry) : Type 0 where
    pub first : CatalogEntry
    pub second : CatalogEntry
    pub one : ProviderModel
    pub other : ProviderModel
    pub first_in : In first seen
    pub second_in : In second seen
    pub first_model : entry first ≡ some one
    pub second_model : entry second ≡ some other
    pub same_id : one.id ≡ other.id
    pub differ : one.upstream_id ≢ other.upstream_id

  unfoldable pub IsAdded : List CatalogEntry → Outcome (Dict ProviderModel) → Type 0
  IsAdded seen (failed e) = IsCollision seen
  IsAdded seen (returned models) = IsListed seen models

  skip-IsListed :
      (seen : List CatalogEntry) (e : CatalogEntry) (models : Dict ProviderModel)
      → entry e ≡ none
      → IsListed seen models
      → IsListed (e ∷ seen) models
  skip-IsListed seen e models n v = record {
    sound = λ id pm h. let (f, i, r, s) = v.sound id pm h in (f, inr i, r, s);
    complete = λ f pm i h. elim i [
      | inl same ↦ absurd (some-ne-none pm (sym h ∙ ap entry same ∙ n))
      | inr j ↦ v.complete f pm j h
    ];
  }

  -- The model that stands under the id has the same upstream id, if there is one.
  abbrev IsCompatible : Dict ProviderModel → ProviderModel → Type 0
  IsCompatible models pm =
      (old : ProviderModel) → lookup pm.id models ≡ some old → old.upstream_id ≡ pm.upstream_id

  same_entry :
      {e f : CatalogEntry} {pm got : ProviderModel}
      → f ≡ e
      → entry e ≡ some pm
      → entry f ≡ some got
      → pm ≡ got
  same_entry {pm = pm} {got = got} same h r =
      some-injective pm got (sym h ∙ sym (ap entry same) ∙ r)

  assign_sound :
      (seen : List CatalogEntry) (e : CatalogEntry) (models : Dict ProviderModel)
      (pm : ProviderModel)
      → entry e ≡ some pm
      → IsListed seen models
      → (id : String) (found : ProviderModel) → lookup id (assign pm.id pm models) ≡ some found
      → (f : CatalogEntry) × In f (e ∷ seen) × (entry f ≡ some found) × (found.id ≡ id)
  assign_sound seen e models pm h v id found r = elim (str_discrete pm.id id) [
    | yes same ↦
        let stored =
          subst (λ x. lookup x (assign pm.id pm models) ≡ some pm) same
            (lookup_hit pm.id pm models) in
        let eq = some-injective pm found (sym stored ∙ r) in
        (e, inl refl, h ∙ ap some eq, ap (λ x. x.id) (sym eq) ∙ same)
    | no other ↦
        let (f, i, q, s) = v.sound id found (sym (lookup_miss pm.id id pm models other) ∙ r) in
        (f, inr i, q, s)
  ]

  same_upstream :
      (seen : List CatalogEntry) (e f : CatalogEntry) (models : Dict ProviderModel)
      (pm got : ProviderModel)
      → entry e ≡ some pm
      → IsCompatible models pm
      → IsListed seen models
      → In f (e ∷ seen)
      → entry f ≡ some got
      → pm.id ≡ got.id
      → pm.upstream_id ≡ got.upstream_id
  same_upstream seen e f models pm got h c v (inl same) r q =
      ap (λ x. x.upstream_id) (same_entry same h r)
  same_upstream seen e f models pm got h c v (inr j) r q =
      let (stored, l, u) = v.complete f got j r in
      sym (c stored (subst (λ x. lookup x models ≡ some stored) (sym q) l)) ∙ u

  assign_complete :
      (seen : List CatalogEntry) (e f : CatalogEntry) (models : Dict ProviderModel)
      (pm got : ProviderModel)
      → entry e ≡ some pm
      → IsListed seen models
      → In f (e ∷ seen)
      → entry f ≡ some got
      → pm.id ≢ got.id
      → (stored : ProviderModel) × (lookup got.id (assign pm.id pm models) ≡ some stored)
        × (stored.upstream_id ≡ got.upstream_id)
  assign_complete seen e f models pm got h v (inl same) r n =
      absurd (n (ap (λ x. x.id) (same_entry same h r)))
  assign_complete seen e f models pm got h v (inr j) r n =
      let (stored, l, u) = v.complete f got j r in
      (stored, lookup_miss pm.id got.id pm models n ∙ l, u)

  assign-IsListed :
      (seen : List CatalogEntry) (e : CatalogEntry) (models : Dict ProviderModel)
      (pm : ProviderModel)
      → entry e ≡ some pm
      → IsCompatible models pm
      → IsListed seen models
      → IsListed (e ∷ seen) (assign pm.id pm models)
  assign-IsListed seen e models pm h c v = record {
    sound = assign_sound seen e models pm h v;
    complete = λ f got i r. elim (str_discrete pm.id got.id) [
      | yes same ↦ (
        pm,
        subst (λ x. lookup x (assign pm.id pm models) ≡ some pm) same (lookup_hit pm.id pm models),
        same_upstream seen e f models pm got h c v i r same,
      )
      | no other ↦ assign_complete seen e f models pm got h v i r other
    ];
  }

  upstream_of : (a b : String) → not (str_eq a b) ≡ false → a ≡ b
  upstream_of a b h = ground (arith, h)

  differ_of : {a b : String} → not (str_eq a b) ≡ true → a ≢ b
  differ_of {a} {b} h e =
      false≢true (sym (ap not (subst (λ x. str_eq a x ≡ true) e (str_eq_refl a))) ∙ h)

  old-IsCollision :
      (seen : List CatalogEntry) (e : CatalogEntry) (models : Dict ProviderModel)
      (pm old : ProviderModel)
      → lookup pm.id models ≡ some old
      → entry e ≡ some pm
      → IsListed seen models
      → old.upstream_id ≢ pm.upstream_id
      → IsCollision (e ∷ seen)
  old-IsCollision seen e models pm old l h v n =
      let (f, i, q, s) = v.sound pm.id old l in
      record {
        first = f;
        second = e;
        one = old;
        other = pm;
        first_in = inr i;
        second_in = inl refl;
        first_model = q;
        second_model = h;
        same_id = s;
        differ = n;
      }

  store_model-IsAdded :
      (seen : List CatalogEntry) (e : CatalogEntry) (models : Dict ProviderModel)
      (pm : ProviderModel) (o : Option ProviderModel)
      → lookup pm.id models ≡ o
      → entry e ≡ some pm
      → IsListed seen models
      → IsAdded (e ∷ seen) (store_model k models pm o)
  unfolding IsAdded
  store_model-IsAdded seen e models pm none l h v =
      assign-IsListed seen e models pm h (λ old q. absurd (some-ne-none old (sym q ∙ l))) v
  store_model-IsAdded seen e models pm (some old) l h v =
      elim (Bool-cases (not (str_eq old.upstream_id pm.upstream_id))) [
        | inl differs ↦
            rw (differs) (old-IsCollision seen e models pm old l h v (differ_of differs))
        | inr same ↦ rw (same) (
            assign-IsListed seen e models pm h
              (λ other q.
                ap (λ x. x.upstream_id) (some-injective other old (sym q ∙ l))
                ∙ upstream_of old.upstream_id pm.upstream_id same)
              v)
      ]

  pub add_model-IsAdded :
      (seen : List CatalogEntry) (e : CatalogEntry) (models : Dict ProviderModel)
      (o : Option ProviderModel)
      → entry e ≡ o
      → IsListed seen models
      → IsAdded (e ∷ seen) (add_model k models o)
  unfolding add_model IsAdded
  add_model-IsAdded seen e models none h v = skip-IsListed seen e models h v
  add_model-IsAdded seen e models (some pm) h v =
      store_model-IsAdded seen e models pm (lookup pm.id models) refl h v
