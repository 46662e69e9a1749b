-- ===== src/Examples/Candidates.antt =====
-- The candidates of a request that names a model with an unclassified second route.
use free_model_router.Examples.Requests.{failing, world, policy}
use free_model_router.Gateway.Response.{semantic}
use free_model_router.Router.Filter.{filter}
use free_model_router.Prelude.Dict.{lookup}
use free_model_router.Prelude.{◌≡◌, refl, sym, inl, true, false, none, [], ◌∷◌, In}
use free_model_router.Gateway.Candidates.{
  Routing, resolve_attempt_candidates, requested, is_explicit, normal, is_auto_model,
  unknown_candidates, fallbacks, has_route, eligible, has_model, explicit_input, unseen,
  ranked_unique, rank_candidates,
}
use free_model_router.Gateway.Candidates.Resolved.{IsResolved, resolve_explicit_first}
use free_model_router.Examples.{pool_request, grok_key, grok, pickle}
use free_model_router.Router.Rank.{
  nan, rank_with_score, rank_less, rank_by_ttft, by_identity, by_key, valid_ttft,
}
use free_model_router.Prelude.Text.{str_discrete, str_lt}
use mathlib.Core.Path.{subst}
use free_model_router.Router.Filter.{
  filter_ids, filter_model, filter_routes, judge, ids, route_access_allowed,
}
use free_model_router.Catalog.Pool.{contains}
use free_model_router.Model.Capability.{supports, state}
use free_model_router.Model.Route.{
  effective_capabilities, effective_access, allows_automatic_routing,
}
use free_model_router.Prelude.Dict.{lookup}
use free_model_router.Router.Rank.Sort.{sort_stable, insert}
use free_model_router.Gateway.Attempts.{
  Tried, chat, attempt_loop, next_attempt_candidate, acceptable, allowed_by, first, on_outcome,
  finish,
}
use free_model_router.Gateway.Serve.{serve, serve-IsResolved}
use free_model_router.Gateway.Chat.{chat_handler}
use free_model_router.Gateway.Policy.{normalized}
use free_model_router.Gateway.Errors.{fallback_decision, classified, is_unsupported, as_failure}
use free_model_router.Model.Failure.{decide_failure_action, by_class}
use free_model_router.Gateway.Streaming.{
  run_streaming_attempt, run_attempt, stream_loop, on_read, on_stream_error,
}
use free_model_router.Gateway.Attempt.{give_up, record_attempt_failure}

abbrev routing : Routing
routing = record {
  base = pool_request;
  pinned_model = "xai/grok";
  fresh_ttft = λ id. (nan, false);
  score_of = λ cs. none;
}

-- The pin puts its model first; its unclassified route is last, as a fallback, and once for each of
-- the two filters that found it.
resolved_lem :
    resolve_attempt_candidates routing "fmr/auto"
    ≡ record { candidate = grok; fallback_only = false }
      ∷ record { candidate = pickle; fallback_only = false }
      ∷ record { candidate = grok_key; fallback_only = true }
      ∷ record { candidate = grok_key; fallback_only = true }
      ∷ []
unfolding resolve_attempt_candidates requested is_explicit is_auto_model normal unknown_candidates
    fallbacks has_route has_model unseen ranked_unique rank_candidates rank_with_score rank_less
    rank_by_ttft by_identity by_key valid_ttft filter filter_ids filter_model filter_routes judge
    ids contains supports state str_lt effective_capabilities effective_access
    allows_automatic_routing route_access_allowed str_discrete lookup sort_stable insert
resolved_lem = refl

resolve_explicit_first_example :
    (false ≡ false)
    × In grok (eligible (explicit_input pool_request (requested routing "fmr/auto")))
unfolding requested is_explicit is_auto_model str_discrete
resolve_explicit_first_example =
    resolve_explicit_first routing "fmr/auto" (record { candidate = grok; fallback_only = false })
      (record { candidate = pickle; fallback_only = false }
        ∷ record { candidate = grok_key; fallback_only = true }
        ∷ record { candidate = grok_key; fallback_only = true }
        ∷ [])
      refl resolved_lem

abbrev failed_first : Tried
failed_first = record {
  candidate = record { candidate = grok; fallback_only = false };
  error = failing.call_error;
}

serve-IsResolved_example :
    IsResolved routing
      (requested routing "fmr/auto")
      (normal routing (requested routing "fmr/auto"))
      failed_first.candidate
unfolding serve chat_handler chat attempt_loop normalized next_attempt_candidate acceptable
    allowed_by first contains on_outcome finish fallback_decision classified decide_failure_action
    by_class is_unsupported as_failure run_streaming_attempt run_attempt stream_loop on_read
    on_stream_error give_up semantic record_attempt_failure str_discrete
serve-IsResolved_example = serve-IsResolved world routing policy true 0 "fmr/auto" failed_first (
    subst
      (λ cs. In failed_first (chat_handler world policy true (is_explicit "fmr/auto") 0 cs).tried)
      (sym resolved_lem) (inl refl))
