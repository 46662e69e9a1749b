-- ===== src/Gateway/Usage.antt =====
-- internal/gateway/attempt.go: `usageCollector`, which keeps one record per attempt of a request. The
-- measured durations are left out.
pub mod Reported
use free_model_router.Prelude.{
  ℕ, zero, suc, ◌+◌, ◌-◌, ◌*◌, ◌/◌, ◌%◌, ◌^◌, ◌≤◌, ◌<◌, String, ◌≡◌, refl, sym, ap, ◌∙◌, ◌≢◌, ◌↔◌,
  ◌⊎◌, inl, inr, Bool, true, false, not, ◌&&◌, ◌||◌, Option, none, some, List, [], ◌∷◌, ◌++◌, arith,
  ltb, leb, ◌==◌, if◌then◌else◌, Bool-cases, Option-cases, &&_iff, bool_ext, Result, ok, err,
  Result-cases, length, All, length-append, All-append, In, In-append_left, In-append_right,
  In-append_cases, All-In,
}
use free_model_router.Model.Route.{ProviderModelId, RouteId}
use free_model_router.Gateway.Attempt.{no_tokens}
use free_model_router.Gateway.Errors.{
  Error, is_nil, attempt_http_status, is_request_canceled, fallback_decision,
}
use free_model_router.Gateway.Response.{TokenUsage}
use free_model_router.Router.Filter.{Candidate}
use free_model_router.Model.Failure.{FailureClass, FailureScope, empty, other_scope}
use free_model_router.Prelude.Int.{eq_ℤ, ℤ, pos}

-- The result of a request so far; `no_result` is "".
pub data UsageResult : Type 0 where
  no_result success failure canceled partial : UsageResult

pub record AttemptRecord : Type 0 where
  pub index : ℕ
  pub provider_model : ProviderModelId
  pub route : RouteId
  pub failure_class : FailureClass
  pub failure_scope : FailureScope
  pub committed : Bool
  pub http_status : ℤ
  pub tokens : TokenUsage

pub record Collector : Type 0 where
  pub attempts : List AttemptRecord
  pub final_model : ProviderModelId
  pub final_route : RouteId
  pub provider : String
  pub tokens : TokenUsage
  pub result : UsageResult

abbrev pub new_collector : Collector
new_collector = record {
  attempts = [];
  final_model = "";
  final_route = "";
  provider = "";
  tokens = no_tokens;
  result = no_result;
}

abbrev pub is_unset_or_success : UsageResult → Bool
is_unset_or_success no_result = true
is_unset_or_success success = true
is_unset_or_success _ = false

-- the result behind an attempt
unfoldable pub next_result : Bool → Bool → Error → UsageResult → UsageResult
next_result ctx_err committed e old =
    if is_nil e
    then success
    else if is_request_canceled ctx_err e
    then canceled
    else if committed
    then partial
    else if is_unset_or_success old
    then failure
    else old

abbrev pub class_of : Error → FailureClass
class_of e = if is_nil e then empty else (fallback_decision e).0.class

abbrev pub scope_of : Error → FailureScope
scope_of e = if is_nil e then other_scope "" else (fallback_decision e).0.scope

abbrev pub is_zero : TokenUsage → Bool
is_zero t = eq_ℤ t.prompt (pos 0) && eq_ℤ t.completion (pos 0) && eq_ℤ t.total (pos 0)

abbrev pub new_record : ℕ → Candidate → Bool → TokenUsage → Error → AttemptRecord
new_record index c committed tokens e = record {
  index = index;
  provider_model = c.model.id;
  route = c.route.id;
  failure_class = class_of e;
  failure_scope = scope_of e;
  committed = committed;
  http_status = attempt_http_status e;
  tokens = tokens;
}

-- `record`
unfoldable pub record_attempt : Collector → Bool → Candidate → Bool → TokenUsage → Error → Collector
record_attempt k ctx_err c committed tokens e = record {
  attempts = k.attempts ++ new_record (length k.attempts + 1) c committed tokens e ∷ [];
  final_model = if committed then c.model.id else k.final_model;
  final_route = if committed then c.route.id else k.final_route;
  provider = if committed then c.route.provider else k.provider;
  tokens = if committed && not (is_zero tokens) then tokens else k.tokens;
  result = next_result ctx_err committed e k.result;
}
