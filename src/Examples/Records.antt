-- ===== src/Examples/Records.antt =====
-- Usage records and access changes at concrete inputs.
use free_model_router.Prelude.{◌≡◌, true, false, List, [], ◌∷◌}
use free_model_router.Gateway.Usage.Reported.{
  Told, record_all, records_from, is_success, record_all_lem,
}
use free_model_router.Catalog.Pool.{RouteMap}
use free_model_router.Examples.{pickle, grok}
use free_model_router.Gateway.Usage.{new_collector}
use free_model_router.Gateway.Attempt.{no_tokens}
use free_model_router.Model.Access.{paid}
use free_model_router.Gateway.Errors.{failure_error, nil}
use free_model_router.Model.Failure.{new_failure, rate_limited, route}
use free_model_router.Prelude.Int.{pos}

abbrev told : List Told
told =
    record {
      ctx_err = false;
      candidate = pickle;
      committed = false;
      tokens = no_tokens;
      error = failure_error (new_failure rate_limited route) (pos 429) nil;
    }
    ∷ record {
      ctx_err = false;
      candidate = grok;
      committed = true;
      tokens = record { prompt = pos 3; completion = pos 4; total = pos 7 };
      error = nil;
    }
    ∷ []

record_all_lem_example :
    let k = record_all new_collector told in
    (k.attempts ≡ records_from 1 told)
    × (k.final_route ≡ "xai::grok")
    × (is_success k.result ≡ true)
record_all_lem_example = record_all_lem told

abbrev paid_routes : RouteMap
paid_routes id = record pickle.route { access = paid } ∷ []
