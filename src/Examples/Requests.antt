-- ===== src/Examples/Requests.antt =====
-- Chat requests at concrete inputs.
use free_model_router.Prelude.Text.{str_discrete}
use free_model_router.Prelude.{
  ◌+◌, String, ◌≡◌, refl, ◌⊎◌, true, false, none, some, List, [], ◌∷◌, ◌==◌, if◌then◌else◌,
}
use free_model_router.Gateway.Attempts.{
  AttemptCandidate, next_attempt_candidate, acceptable, allowed_by, chat, first, attempt_loop,
  on_outcome, finish,
}
use free_model_router.Gateway.Response.{StreamEvent, sse_headers, sse_chunk, sse_done, semantic}
use free_model_router.Gateway.Streaming.{
  run_streaming_attempt, run_non_streaming_attempt, run_attempt, stream_loop, on_read,
  on_stream_error,
}
use free_model_router.Gateway.Attempt.{Upstream, Read, give_up, record_attempt_failure}
use free_model_router.Gateway.Chat.{
  World, IsClientView, chat_handler, chat_handler-IsClientView, env_of,
}
use free_model_router.Gateway.Policy.{FailoverPolicy, normalized}
use free_model_router.Gateway.Attempts.Failover.{IsFailover, chat-IsFailover}
use free_model_router.Gateway.Streaming.Commit.{IsQuiet, IsStreamed}
use free_model_router.Examples.{pickle, grok, grok_key}
use free_model_router.Prelude.Int.{pos, to_ℕ}
use free_model_router.Gateway.Errors.{
  nil, failure_error, fallback_decision, classified, is_unsupported, as_failure,
}
use free_model_router.Model.Failure.{
  new_failure, rate_limited, route, next_route, stop, decide_failure_action, by_class,
}
use free_model_router.Gateway.Streaming.Attempted.{
  IsResponded, run_streaming_attempt_lem, run_non_streaming_attempt_lem,
}
use free_model_router.Catalog.Pool.{contains}
use free_model_router.Gateway.Attempts.Next.{
  IsNext, next_attempt_candidate-IsNext, next_attempt_candidate_complete,
}

abbrev candidates : List AttemptCandidate
candidates =
    record { candidate = pickle; fallback_only = false }
    ∷ record { candidate = grok; fallback_only = false }
    ∷ record { candidate = grok_key; fallback_only = true }
    ∷ []

abbrev says : String → String → StreamEvent
says text finish_reason = record {
  delta_text = text;
  choice_index = pos 0;
  tool_calls = [];
  reasoning_content = "";
  finish_reason = finish_reason;
  usage = none;
}

abbrev reads_of : List StreamEvent → List Read
reads_of [] = []
reads_of (e ∷ es) =
    record { event = e; error = nil; fires = false; fires_at_commit = false } ∷ reads_of es

abbrev answering : Upstream
answering = record {
  slot_error = nil;
  slot_fires = false;
  call_error = nil;
  call_fires = false;
  has_stream = true;
  reads = reads_of (says "" "" ∷ says "hi" "" ∷ says "" "stop" ∷ []);
  ctx_err = false;
}

-- The upstream of the first attempt fails, the second answers.
abbrev pub failing : Upstream
failing = record answering {
  call_error = failure_error (new_failure rate_limited route) (pos 429) nil;
}

abbrev pub world : World
world = record {
  ctx_err = λ k. false;
  clock = λ k. k;
  gone = false;
  upstream = λ k c. if k == 0 then failing else answering;
}

abbrev pub policy : FailoverPolicy
policy = record { max_attempts = pos 2; budget = pos 0 }

chat_handler-IsClientView_example :
    IsClientView true (chat_handler world policy true false 0 candidates).sent
chat_handler-IsClientView_example = chat_handler-IsClientView world policy true false 0 candidates

chat-IsFailover_example :
    IsFailover
      (env_of world true)
      candidates
      (0 + to_ℕ (normalized policy).budget)
      (to_ℕ (normalized policy).max_attempts)
      (chat (env_of world true) policy false 0 candidates).tried
chat-IsFailover_example = chat-IsFailover (env_of world true) policy false 0 candidates

run_streaming_attempt_lem_example :
    IsQuiet (run_streaming_attempt grok answering)
    ⊎ IsStreamed grok (run_streaming_attempt grok answering)
run_streaming_attempt_lem_example = run_streaming_attempt_lem grok answering

run_non_streaming_attempt_lem_example :
    IsQuiet (run_non_streaming_attempt grok answering)
    ⊎ IsResponded grok (run_non_streaming_attempt grok answering)
run_non_streaming_attempt_lem_example = run_non_streaming_attempt_lem grok answering

next_attempt_candidate-IsNext_example :
    IsNext candidates
      ("oc::pickle" ∷ [])
      (some pickle)
      next_route
      (record { candidate = grok; fallback_only = false })
unfolding next_attempt_candidate acceptable allowed_by first contains str_discrete
next_attempt_candidate-IsNext_example =
    next_attempt_candidate-IsNext candidates ("oc::pickle" ∷ []) (some pickle) next_route
      (record { candidate = grok; fallback_only = false }) refl

next_attempt_candidate_complete_example :
    ¬ IsNext candidates
      ("oc::pickle" ∷ [])
      (some pickle)
      stop
      (record { candidate = grok; fallback_only = false })
unfolding next_attempt_candidate acceptable allowed_by first contains str_discrete
next_attempt_candidate_complete_example =
    next_attempt_candidate_complete candidates ("oc::pickle" ∷ []) (some pickle) stop
      (record { candidate = grok; fallback_only = false }) refl

-- The second attempt answers, and its stream is all that the client sees.
streams_after_failover :
    (chat_handler world policy true false 0 candidates).sent
    ≡ sse_headers
      ∷ sse_chunk "xai/grok" (says "hi" "")
      ∷ sse_chunk "xai/grok" (says "" "stop")
      ∷ sse_done
      ∷ []
unfolding chat_handler chat attempt_loop normalized next_attempt_candidate acceptable allowed_by
    first contains on_outcome finish fallback_decision classified decide_failure_action by_class
    is_unsupported as_failure run_streaming_attempt run_attempt stream_loop on_read on_stream_error
    give_up semantic record_attempt_failure str_discrete
streams_after_failover = refl
