-- ===== src/Gateway/Attempt.antt =====
-- internal/gateway/attempt.go: the budget of a request, and what an attempt reads, writes and returns.
use free_model_router.Prelude.{
  String, Bool, true, false, not, Option, none, some, List, [], ◌∷◌, ◌++◌, if◌then◌else◌,
}
use free_model_router.Gateway.Response.{StreamEvent, TokenUsage, Sent}
use free_model_router.Gateway.Errors.{Error, failure_error, should_record_route_failure, plain}
use free_model_router.Model.Route.{RouteId}
use free_model_router.Prelude.Int.{pos}
use free_model_router.Model.Failure.{new_failure, protocol, route}

-- The state of `attemptBudget`: `committed` and `expired` are final.
pub data Budget : Type 0 where
  opened committed expired : Budget

-- the timer's function: `CompareAndSwap(attemptBudgetOpen, attemptBudgetExpired)`
abbrev pub fire : Bool → Budget → Budget
fire true opened = expired
fire _ b = b

-- `Expired`
abbrev pub is_expired : Budget → Bool
is_expired expired = true
is_expired _ = false

-- `Commit` succeeds on an open budget only, and leaves it committed.
abbrev pub can_commit : Budget → Bool
can_commit opened = true
can_commit _ = false

-- One `stream.Next`: the event, or an error. The timer fires before the check of the budget, or between
-- the check and the commit.
pub record Read : Type 0 where
  pub event : StreamEvent
  pub error : Error
  pub fires : Bool
  pub fires_at_commit : Bool

-- What an attempt reads from outside: `AcquireSlot`, `ChatCompletion` and its stream, which ends with
-- `io.EOF` behind its last read, and whether the client's context has an error when the attempt ends.
pub record Upstream : Type 0 where
  pub slot_error : Error
  pub slot_fires : Bool
  pub call_error : Error
  pub call_fires : Bool
  pub has_stream : Bool
  pub reads : List Read
  pub ctx_err : Bool

-- The calls that change the state of the health manager and of the latency store.
pub data Call : Type 0 where
  acquire_slot release_slot : String → Call
  record_request route_failure route_success : RouteId → Call

pub record Attempt : Type 0 where
  pub handled : Bool
  pub error : Error
  pub sent : List Sent
  pub is_committed : Bool
  pub tokens : TokenUsage
  pub calls : List Call

abbrev pub no_tokens : TokenUsage
no_tokens = record { prompt = pos 0; completion = pos 0; total = pos 0 }

abbrev pub tokens_or : TokenUsage → Option TokenUsage → TokenUsage
tokens_or t none = t
tokens_or t (some u) = u

abbrev pub protocol_error : String → Error
protocol_error text = failure_error (new_failure protocol route) (pos 0) (plain text)

-- `recordAttemptFailure`
unfoldable pub record_attempt_failure : Bool → RouteId → Error → List Call
record_attempt_failure ctx_err id e =
    if not (should_record_route_failure ctx_err e)
    then []
    else record_request id ∷ route_failure id ∷ []

abbrev pub record_success : RouteId → List Call
record_success id = record_request id ∷ route_success id ∷ []

-- An attempt that ends before anything was sent, with an error that is recorded.
unfoldable pub give_up : Bool → RouteId → TokenUsage → Error → Attempt
give_up ctx_err id tokens e = record {
  handled = false;
  error = e;
  sent = [];
  is_committed = false;
  tokens = tokens;
  calls = record_attempt_failure ctx_err id e;
}

-- A stream that ends after it was committed.
abbrev pub complete : List Sent → TokenUsage → Error → List Call → Attempt
complete sent tokens e calls = record {
  handled = true;
  error = e;
  sent = sent;
  is_committed = true;
  tokens = tokens;
  calls = calls;
}

abbrev pub prepend : List Sent → Attempt → Attempt
prepend sent a = record a { sent = sent ++ a.sent }
