-- ===== src/Providers/Catalog/Faithful.antt =====
-- The catalog that a client returns, against the entries that the upstream listed.
use free_model_router.Gateway.Errors.{Error, is_nil}
use free_model_router.Model.Route.{ProviderModel}
use free_model_router.Model.Snapshot.{CatalogSnapshot, entries}
use free_model_router.Prelude.Dict.{Dict, lookup}
use free_model_router.Prelude.{
  ℕ, String, ◌≡◌, refl, sym, ◌⊎◌, inl, inr, true, Option, List, [], ◌∷◌, In,
}
use free_model_router.Providers.Wire.{Outcome, returned, failed}
use free_model_router.Providers.Catalog.{
  CatalogEntry, Coding, entry_model, add_model, then_models, add_entries, provider_failure,
}
use free_model_router.Providers.Catalog.Discover.{
  CatalogExchange, read_catalog, snapshot_of, keyed_discover,
}
use free_model_router.Model.Failure.{protocol}
use mathlib.Core.Option.{some-ne-none}
use free_model_router.Providers.Catalog.Listed.{IsListed, IsCollision, IsAdded, add_model-IsAdded}

module _ (k : Coding) (entry : CatalogEntry → Option ProviderModel) where
  -- The entries in the order in which the loop has met them, the last first.
  abbrev met : List CatalogEntry → List CatalogEntry → List CatalogEntry
  met seen [] = seen
  met seen (e ∷ es) = met (e ∷ seen) es

  seen-met : (es seen : List CatalogEntry) (f : CatalogEntry) → In f seen → In f (met seen es)
  seen-met [] seen f i = i
  seen-met (e ∷ es) seen f i = seen-met es (e ∷ seen) f (inr i)

  In-met : (es seen : List CatalogEntry) (f : CatalogEntry) → In f es → In f (met seen es)
  In-met [] seen f i = absurd i
  In-met (e ∷ es) seen f (inl same) = seen-met es (e ∷ seen) f (inl same)
  In-met (e ∷ es) seen f (inr i) = In-met es (e ∷ seen) f i

  met-cases :
      (es seen : List CatalogEntry) (f : CatalogEntry) → In f (met seen es) → In f es ⊎ In f seen
  met-cases [] seen f i = inr i
  met-cases (e ∷ es) seen f i = elim (met-cases es (e ∷ seen) f i) [
    | inl j ↦ inl (inr j)
    | inr (inl same) ↦ inl (inl same)
    | inr (inr j) ↦ inr j
  ]

  IsCollision-grow :
      (xs ys : List CatalogEntry)
      → ((f : CatalogEntry) → In f xs → In f ys)
      → IsCollision k entry xs
      → IsCollision k entry ys
  IsCollision-grow xs ys grow c = record {
    first = c.first;
    second = c.second;
    one = c.one;
    other = c.other;
    first_in = grow c.first c.first_in;
    second_in = grow c.second c.second_in;
    first_model = c.first_model;
    second_model = c.second_model;
    same_id = c.same_id;
    differ = c.differ;
  }

  then_models-IsAdded :
      (es seen : List CatalogEntry) (o : Outcome (Dict ProviderModel))
      (next : Dict ProviderModel → Outcome (Dict ProviderModel))
      → IsAdded k entry seen o
      → ((models : Dict ProviderModel)
          → IsListed k entry seen models
          → IsAdded k entry es (next models))
      → ((f : CatalogEntry) → In f seen → In f es)
      → IsAdded k entry es (then_models k o next)
  unfolding IsAdded
  then_models-IsAdded es seen (failed e) next h f grow = IsCollision-grow seen es grow h
  then_models-IsAdded es seen (returned models) next h f grow = f models h

  add_entries-IsAdded :
      (es seen : List CatalogEntry) (models : Dict ProviderModel)
      → IsListed k entry seen models
      → IsAdded k entry (met seen es) (add_entries k entry models es)
  unfolding add_entries IsAdded
  add_entries-IsAdded [] seen models v = v
  add_entries-IsAdded (e ∷ es) seen models v =
      then_models-IsAdded (met (e ∷ seen) es) (e ∷ seen) (add_model k models (entry e)) _
        (add_model-IsAdded k entry seen e models (entry e) refl v)
        (λ ms w. add_entries-IsAdded es (e ∷ seen) ms w) (λ f. seen-met es (e ∷ seen) f)

  IsAdded-same :
      (xs ys : List CatalogEntry)
      → ((f : CatalogEntry) → In f xs → In f ys)
      → ((f : CatalogEntry) → In f ys → In f xs)
      → (o : Outcome (Dict ProviderModel)) → IsAdded k entry xs o
      → IsAdded k entry ys o
  unfolding IsAdded
  IsAdded-same xs ys there back (failed e) c = IsCollision-grow xs ys there c
  IsAdded-same xs ys there back (returned models) v = record {
    sound = λ id pm h. let (f, i, q, s) = v.sound id pm h in (f, there f i, q, s);
    complete = λ f pm i. v.complete f pm (back f i);
  }

  empty-IsListed : IsListed k entry [] []
  unfolding lookup
  empty-IsListed = record {
    sound = λ id pm h. absurd (some-ne-none pm (sym h));
    complete = λ f pm i. absurd i;
  }

  not_in_nil : (es : List CatalogEntry) (f : CatalogEntry) → In f (met [] es) → In f es
  not_in_nil es f i = elim (met-cases es [] f i) [ inl j ↦ j | inr j ↦ absurd j ]

  all_entries-IsAdded : (es : List CatalogEntry) → IsAdded k entry es (add_entries k entry [] es)
  all_entries-IsAdded es =
      IsAdded-same (met [] es) es (not_in_nil es) (λ f. In-met es [] f) _
        (add_entries-IsAdded es [] [] empty-IsListed)

  -- What a catalog says of the entries of the answer.
  pub IsCatalogOf : List CatalogEntry → Outcome CatalogSnapshot → Type 0
  IsCatalogOf es (failed e) = IsCollision k entry es
  IsCatalogOf es (returned s) = IsListed k entry es (entries s.models)

  snapshot_of-IsCatalogOf :
      (now : ℕ) (es : List CatalogEntry) (o : Outcome (Dict ProviderModel))
      → IsAdded k entry es o
      → IsCatalogOf es (snapshot_of now o)
  unfolding IsAdded IsCatalogOf
  snapshot_of-IsCatalogOf now es (failed e) h = h
  snapshot_of-IsCatalogOf now es (returned models) h = h

-- An exchange that nothing disturbs, whose answer lists the entries.
pub record IsHealthy (x : CatalogExchange) (es : List CatalogEntry) : Type 0 where
  pub built : is_nil x.build_error ≡ true
  pub called : is_nil x.do_error ≡ true
  pub success : x.status ≡ 200
  pub whole : is_nil x.read_error ≡ true
  pub decoded : x.parsed ≡ returned es

read_catalog-healthy :
    (k : Coding) (x : CatalogExchange) (es : List CatalogEntry) (on_read : Error → Error)
    (collect : List CatalogEntry → Outcome (Dict ProviderModel))
    → IsHealthy x es
    → read_catalog k on_read x collect ≡ snapshot_of x.now (collect es)
unfolding read_catalog
read_catalog-healthy k x es on_read collect h = rw (h.success, h.whole, h.decoded) refl

-- If nothing disturbs the call, the catalog of a client of xAI's kind holds exactly the models of the entries that the
-- upstream listed: each model is that of an entry and stands under its id, and each entry that has a model has one
-- there with its upstream id. Or the call fails, and then two entries have models with one id and different upstream ids.
pub keyed_discover-IsCatalogOf :
    (k : Coding) (canonical : String → String) (provider_id : String) (x : CatalogExchange)
    (es : List CatalogEntry)
    → IsHealthy x es
    → IsCatalogOf k
        (entry_model k (λ e. true) canonical provider_id)
        es
        (keyed_discover k canonical provider_id x)
unfolding keyed_discover
keyed_discover-IsCatalogOf k canonical provider_id x es h =
    rw
      (
        h.built,
        h.called,
        read_catalog-healthy k x es (provider_failure k protocol)
            (add_entries k (entry_model k (λ e. true) canonical provider_id) []) h,
      )
      (snapshot_of-IsCatalogOf k (entry_model k (λ e. true) canonical provider_id) x.now es _
        (all_entries-IsAdded k (entry_model k (λ e. true) canonical provider_id) es))
