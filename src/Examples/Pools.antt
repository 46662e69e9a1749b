-- ===== src/Examples/Pools.antt =====
-- The catalog, the pool, the eligibility and the ranking at concrete inputs.
use free_model_router.Router.Filter.{filter}
use free_model_router.Catalog.Store.Steps.{
  Call, Inv, IsCareful, mutates, replaces, refreshes, selects, commits, run, run-Inv, new_store-Inv,
}
use free_model_router.Prelude.Text.{str_discrete}
use free_model_router.Prelude.{
  String, ◌≡◌, refl, ◌↔◌, true, not, ◌&&◌, ◌||◌, none, some, List, [], ◌∷◌, ◌++◌, if◌then◌else◌, ok,
  In, All,
}
use free_model_router.Model.Identity.{
  new_provider_model_id, matches_provider, matches_rest, contains_separator, parse,
}
use free_model_router.Catalog.Pool.{contains, is_automatic, manual}
use free_model_router.Catalog.Pool.Selection.{IsDistinct}
use free_model_router.Catalog.Reconcile.{merge, in_catalog, qualifies, is_tombstone}
use free_model_router.Examples.{
  grok, pickle_pool, pickle, only_grok, pool_request, routes_of, both_models,
}
use free_model_router.Router.Rank.{
  TtftLookup, ScoreLookup, rank_with_score, finite, valid_rank_score, nan,
}
use mathlib.Core.List.{Permᴰ}
use free_model_router.Router.Rank.Ranked.{
  AllPairs, at_least, rank_with_score_deterministic, rank_with_score_descends,
}
use free_model_router.Router.Filter.{Candidate}
use free_model_router.Prelude.Text.{str_eq}
use free_model_router.Prelude.Int.{pos}
use free_model_router.Router.Filter.Eligible.{IsEligible, filter_iff}
use free_model_router.Model.Snapshot.{entries}
use free_model_router.Model.Identity.RoundTrip.{parse-new_provider_model_id}
use free_model_router.Catalog.Reconcile.Intent.{merge_tombstones, merge_keeps_selection}
use free_model_router.Catalog.Store.{new_store}

parse-new_provider_model_id_example : parse "oc/pickle" ≡ ok ("oc", "pickle")
unfolding new_provider_model_id matches_provider matches_rest contains_separator str_discrete
parse-new_provider_model_id_example = parse-new_provider_model_id "oc" "pickle" "oc/pickle" refl

merge_keeps_selection_example :
    let after = merge pickle_pool only_grok routes_of in
    (after.0.selected ≡ pickle_pool.selected ++ after.1.added)
    × (contains after.0.selected "xai/grok" ≡ (
        contains pickle_pool.selected "xai/grok"
        || (in_catalog (entries only_grok.models) "xai/grok"
            && qualifies (is_automatic pickle_pool.mode) (routes_of "xai/grok"))))
    × (after.0.mode ≡ pickle_pool.mode)
    × (contains after.1.added "xai/grok" ≡ (
        not (contains pickle_pool.selected "xai/grok")
        && (in_catalog (entries only_grok.models) "xai/grok"
            && qualifies (is_automatic pickle_pool.mode) (routes_of "xai/grok"))))
    × IsDistinct after.1.added
merge_keeps_selection_example = merge_keeps_selection pickle_pool only_grok routes_of "xai/grok"

merge_tombstones_example :
    let after = merge pickle_pool only_grok routes_of in
    let present = in_catalog (entries only_grok.models) "oc/pickle" in
    let was = is_tombstone pickle_pool.tombstones "oc/pickle" in
    (is_tombstone after.0.tombstones "oc/pickle"
      ≡ (if contains pickle_pool.selected "oc/pickle" then not present else was))
    × (contains after.1.tombstoned "oc/pickle"
        ≡ (contains pickle_pool.selected "oc/pickle" && (not present && not was)))
    × (contains after.1.restored "oc/pickle"
        ≡ (contains pickle_pool.selected "oc/pickle" && (present && was)))
merge_tombstones_example = merge_tombstones pickle_pool only_grok routes_of "oc/pickle"

abbrev history : List Call
history =
    refreshes both_models routes_of 5
    ∷ selects ("xai/grok" ∷ "xai/grok" ∷ [])
    ∷ replaces ("oc/pickle" ∷ "xai/grok" ∷ []) manual
    ∷ mutates (λ p. p)
    ∷ commits none 6
    ∷ refreshes only_grok routes_of 7
    ∷ []

history-IsCareful : All IsCareful history
unfolding contains str_discrete
history-IsCareful = (tt, (tt, ((refl, (refl, tt)), ((λ p d. d), (tt, (tt, tt))))))

run-Inv_example : Inv (run (new_store none) history)
run-Inv_example = run-Inv (new_store none) history history-IsCareful new_store-Inv

filter_iff_example :
    In grok (filter pool_request).eligible
    ↔ IsEligible pool_request (entries both_models.models) grok
filter_iff_example = filter_iff pool_request both_models grok refl

abbrev measured : TtftLookup
measured id = (finite (pos 7), str_eq id "oc::pickle")

abbrev scored : ScoreLookup
scored c = if str_eq c.route.id "xai::grok" then (finite (pos 9), true) else (nan, true)

rank_with_score_descends_example :
    AllPairs
      (λ x y. at_least (valid_rank_score (scored x)) (valid_rank_score (scored y)) ≡ true)
      (rank_with_score (pickle ∷ grok ∷ []) (some measured) (some scored))
rank_with_score_descends_example =
    rank_with_score_descends (pickle ∷ grok ∷ []) (some measured) scored

abbrev table : String → String → Candidate
table model_id route_id = if str_eq route_id "oc::pickle" then pickle else grok

rank_with_score_deterministic_example :
    rank_with_score (pickle ∷ grok ∷ []) (some measured) none
    ≡ rank_with_score (grok ∷ pickle ∷ []) (some measured) none
unfolding str_discrete
rank_with_score_deterministic_example =
    rank_with_score_deterministic table (pickle ∷ grok ∷ []) (grok ∷ pickle ∷ []) (some measured)
      none (Permᴰ.swap refl refl) (refl, (refl, tt))
