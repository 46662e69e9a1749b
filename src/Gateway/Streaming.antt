-- ===== src/Gateway/Streaming.antt =====
-- internal/gateway/attempt.go: one attempt, streaming or not, over what the upstream delivers. The
-- timer of the failover budget may fire between any two steps; the flags of a read say where it does.

pub mod Commit
pub mod Attempted
use Prim.Native.String.{◌++◌ as append}
use free_model_router.Prelude.{
  String, Bool, true, false, not, ◌&&◌, ◌||◌, Option, none, some, List, [], ◌∷◌, ◌++◌,
  if◌then◌else◌,
}
use free_model_router.Gateway.Response.{
  StreamEvent, TokenUsage, Sent, sse_chunk, semantic, json_ok, sse_done, sse_headers, sse_error,
}
use free_model_router.Gateway.Errors.{
  Error, failure_error, should_record_route_failure, is_eof, failover_budget_error, is_nil, eof,
  nil, is_request_canceled, plain,
}
use free_model_router.Model.Route.{RouteId}
use free_model_router.Router.Filter.{Candidate}
use free_model_router.Prelude.Int.{pos}
use free_model_router.Model.Failure.{new_failure, protocol, route}
use free_model_router.Prelude.Text.{str_eq}
use free_model_router.Gateway.Attempt.{
  Budget, opened, committed, expired, fire, is_expired, can_commit, Read, Upstream, Call,
  acquire_slot, release_slot, record_request, route_failure, route_success, Attempt, no_tokens,
  tokens_or, protocol_error, record_attempt_failure, record_success, give_up, complete, prepend,
}

-- The stream ends with an error, `io.EOF` included.
unfoldable pub on_stream_error : Bool → RouteId → Bool → TokenUsage → Error → Attempt
on_stream_error ctx_err id is_committed tokens e =
    if is_eof e
    then if not is_committed
      then give_up ctx_err id tokens (protocol_error "upstream ended before first semantic event")
      else complete (sse_done ∷ []) tokens nil (record_success id)
    else if not is_committed
    then give_up ctx_err id tokens e
    else if is_request_canceled ctx_err e
    then complete [] tokens e []
    else complete (sse_error e ∷ []) tokens e (record_attempt_failure ctx_err id e)

-- A chunk, and the end of the stream where the event has a finish reason.
abbrev pub on_chunk : Candidate → TokenUsage → StreamEvent → Attempt → Attempt
on_chunk c tokens ev rest = prepend (sse_chunk c.model.id ev ∷ []) (
    if not (str_eq ev.finish_reason "")
    then complete (sse_done ∷ []) tokens nil (record_success c.route.id)
    else rest)

-- One read of a stream; `continue` is the rest of the loop.
unfoldable pub on_read :
    Bool
    → Candidate
    → Read
    → Budget
    → Bool
    → TokenUsage
    → (Budget → Bool → TokenUsage → Attempt)
    → Attempt
on_read ctx_err c r b is_committed tokens continue =
    let tokens' = tokens_or tokens r.event.usage in
    if is_expired b && not is_committed
    then give_up ctx_err c.route.id tokens failover_budget_error
    else if not (is_nil r.error)
    then on_stream_error ctx_err c.route.id is_committed tokens r.error
    else if not (semantic r.event)
    then continue b is_committed tokens
    else if is_committed
    then on_chunk c tokens' r.event (continue b true tokens')
    else if can_commit (fire r.fires_at_commit b)
    then prepend (sse_headers ∷ []) (on_chunk c tokens' r.event (continue committed true tokens'))
    else give_up ctx_err c.route.id tokens' failover_budget_error

-- the loop of `runStreamingAttemptWithUsage`
unfoldable pub stream_loop : Bool → Candidate → List Read → Budget → Bool → TokenUsage → Attempt
stream_loop ctx_err c [] b is_committed tokens =
    if is_expired b && not is_committed
    then give_up ctx_err c.route.id tokens failover_budget_error
    else on_stream_error ctx_err c.route.id is_committed tokens eof
stream_loop ctx_err c (r ∷ rs) b is_committed tokens =
    on_read ctx_err c r (fire r.fires b) is_committed tokens (stream_loop ctx_err c rs)

-- What a response is made of, and whether a semantic event was seen.
pub record Collected : Type 0 where
  pub content : String
  pub tool_calls : List String
  pub reasoning : String
  pub seen : Bool
  pub collected_tokens : TokenUsage

abbrev pub empty_collected : Collected
empty_collected = record {
  content = "";
  tool_calls = [];
  reasoning = "";
  seen = false;
  collected_tokens = no_tokens;
}

abbrev pub collect : Collected → StreamEvent → Collected
collect acc ev = record {
  content = append acc.content ev.delta_text;
  tool_calls = acc.tool_calls ++ ev.tool_calls;
  reasoning = append acc.reasoning ev.reasoning_content;
  seen = acc.seen || semantic ev;
  collected_tokens = tokens_or acc.collected_tokens ev.usage;
}

-- the response behind the loop
unfoldable pub respond : Candidate → Collected → String → Attempt
respond c acc finish_reason =
    complete
      (json_ok (record {
        model = c.model.id;
        content = acc.content;
        tool_calls = acc.tool_calls;
        reasoning = acc.reasoning;
        finish_reason = finish_reason;
      })
        ∷ [])
      acc.collected_tokens nil (record_success c.route.id)

abbrev pub at_eof : Bool → Candidate → Collected → Attempt
at_eof ctx_err c acc =
    if not acc.seen
    then give_up ctx_err c.route.id acc.collected_tokens
        (protocol_error "upstream ended before first semantic event")
    else respond c acc ""

-- the loop of `runNonStreamingAttemptWithUsage`
unfoldable pub collect_loop : Bool → Candidate → List Read → Budget → Collected → Attempt
collect_loop ctx_err c [] b acc =
    if is_expired b
    then give_up ctx_err c.route.id acc.collected_tokens failover_budget_error
    else at_eof ctx_err c acc
collect_loop ctx_err c (r ∷ rs) b acc =
    let rest = collect_loop ctx_err c rs (fire r.fires b) (collect acc r.event) in
    if is_expired (fire r.fires b)
    then give_up ctx_err c.route.id acc.collected_tokens failover_budget_error
    else if is_eof r.error
    then at_eof ctx_err c acc
    else if not (is_nil r.error)
    then give_up ctx_err c.route.id acc.collected_tokens r.error
    else if not (str_eq r.event.finish_reason "")
    then respond c (collect acc r.event) r.event.finish_reason
    else rest

-- An attempt that holds a slot of the provider and releases it at the end.
abbrev pub in_slot : Candidate → Attempt → Attempt
in_slot c a =
    let p = c.route.provider in
    record a { calls = acquire_slot p ∷ (a.calls ++ release_slot p ∷ []) }

-- An attempt without its slot: nothing is recorded.
abbrev pub no_slot : Error → Attempt
no_slot e = record {
  handled = false;
  error = e;
  sent = [];
  is_committed = false;
  tokens = no_tokens;
  calls = [];
}

abbrev pub budget_error_or : Budget → Error → Error
budget_error_or b e = if is_expired b then failover_budget_error else e

-- What both kinds of attempt share: the slot, which is released at the end, and the upstream call.
unfoldable pub run_attempt : (Budget → Attempt) → Candidate → Upstream → Attempt
run_attempt loop c up =
    let b1 = fire up.slot_fires opened in
    let b2 = fire up.call_fires b1 in
    if not (is_nil up.slot_error)
    then no_slot (budget_error_or b1 up.slot_error)
    else in_slot c (
        if not (is_nil up.call_error)
        then give_up up.ctx_err c.route.id no_tokens (budget_error_or b2 up.call_error)
        else if not up.has_stream
        then give_up up.ctx_err c.route.id no_tokens
            (protocol_error "provider returned nil chat stream")
        else loop b2)

-- `runStreamingAttempt`
unfoldable pub run_streaming_attempt : Candidate → Upstream → Attempt
run_streaming_attempt c up =
    run_attempt (λ b. stream_loop up.ctx_err c up.reads b false no_tokens) c up

-- `runNonStreamingAttempt`
unfoldable pub run_non_streaming_attempt : Candidate → Upstream → Attempt
run_non_streaming_attempt c up =
    run_attempt (λ b. collect_loop up.ctx_err c up.reads b empty_collected) c up
