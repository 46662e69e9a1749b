-- ===== src/Gateway/Errors.antt =====
-- The errors of an attempt, and what the gateway decides from them: internal/provider/provider.go,
-- internal/gateway/attempt.go and internal/gateway/gateway.go.

-- A Go error with the chain below it, as `errors.As` and `errors.Is` walk it. `nil` is no error, at
-- the end of a chain or in place of one.
use free_model_router.Prelude.{
  ℕ, String, Bool, true, false, not, ◌&&◌, ◌||◌, Option, none, some, if◌then◌else◌,
}
use free_model_router.Model.Failure.{
  Failure, new_failure, FailureClass, timeout, FailureAction, is_request, http_status, bad_request,
  canceled, route, next_model, network, request, protocol, decide_failure_action, next_route, stop,
  unknown,
}
use free_model_router.Prelude.Int.{ℤ, pos, is_positive}

pub data Error : Type 0 where
  nil eof context_canceled deadline_exceeded : Error
  plain : String → Error
  unsupported_error : String → String → Error
  failure_error : Failure → ℤ → Error → Error
  status_error : ℤ → Error
  net_error : Bool → Error → Error
  wrapped : String → Error → Error

abbrev pub is_nil : Error → Bool
is_nil nil = true
is_nil _ = false

-- `errors.As(err, &unsupported)`
unfoldable pub is_unsupported : Error → Bool
is_unsupported (unsupported_error p r) = true
is_unsupported (failure_error f status cause) = is_unsupported cause
is_unsupported (net_error t cause) = is_unsupported cause
is_unsupported (wrapped s cause) = is_unsupported cause
is_unsupported _ = false

-- `errors.As(err, &failureErr)`: the failure and the status it carries.
unfoldable pub as_failure : Error → Option (Failure × ℤ)
as_failure (failure_error f status cause) = some (f, status)
as_failure (net_error t cause) = as_failure cause
as_failure (wrapped s cause) = as_failure cause
as_failure _ = none

-- `errors.As(cause, &carrier)`
unfoldable pub as_status : Error → Option ℤ
as_status (status_error code) = some code
as_status (failure_error f status cause) = as_status cause
as_status (net_error t cause) = as_status cause
as_status (wrapped s cause) = as_status cause
as_status _ = none

-- `errors.Is(err, context.Canceled)`
unfoldable pub is_canceled : Error → Bool
is_canceled context_canceled = true
is_canceled (failure_error f status cause) = is_canceled cause
is_canceled (net_error t cause) = is_canceled cause
is_canceled (wrapped s cause) = is_canceled cause
is_canceled _ = false

-- `errors.Is(err, context.DeadlineExceeded)`
unfoldable pub is_deadline : Error → Bool
is_deadline deadline_exceeded = true
is_deadline (failure_error f status cause) = is_deadline cause
is_deadline (net_error t cause) = is_deadline cause
is_deadline (wrapped s cause) = is_deadline cause
is_deadline _ = false

-- `errors.Is(err, io.EOF)`
unfoldable pub is_eof : Error → Bool
is_eof eof = true
is_eof (failure_error f status cause) = is_eof cause
is_eof (net_error t cause) = is_eof cause
is_eof (wrapped s cause) = is_eof cause
is_eof _ = false

-- `errors.As(err, &netErr)`, with what its `Timeout()` answers. The deadline error of a context is a
-- `net.Error` too.
unfoldable pub as_net_error : Error → Option Bool
as_net_error deadline_exceeded = some true
as_net_error (net_error t cause) = some t
as_net_error (failure_error f status cause) = as_net_error cause
as_net_error (wrapped s cause) = as_net_error cause
as_net_error _ = none

abbrev pub status_or_zero : Option ℤ → ℤ
status_or_zero none = pos 0
status_or_zero (some n) = n

-- `NewFailureError`
unfoldable pub new_failure_error : Failure → Error → Error
new_failure_error f cause = failure_error f (status_or_zero (as_status cause)) cause

-- `failoverBudgetError`
abbrev pub failover_budget_error : Error
failover_budget_error =
    failure_error (new_failure timeout route) (pos 0) (plain "failover budget exhausted")

abbrev pub is_bad_request_or_protocol : FailureClass → Bool
is_bad_request_or_protocol bad_request = true
is_bad_request_or_protocol protocol = true
is_bad_request_or_protocol _ = false

-- The action on a classified failure, which may move on to another model where the policy alone
-- would not.
unfoldable pub classified : Failure → Failure × FailureAction
classified f = (
  f,
  if not (is_request f.scope) && is_bad_request_or_protocol f.class
      then next_model
      else decide_failure_action f,
)

abbrev pub net_class : Bool → FailureClass
net_class true = timeout
net_class false = network

abbrev pub unclassified : Option Bool → Failure × FailureAction
unclassified (some t) = (new_failure (net_class t) route, next_route)
unclassified none = (new_failure unknown request, stop)

abbrev pub by_failure : Error → Option (Failure × ℤ) → Failure × FailureAction
by_failure e (some f) = classified f.0
by_failure e none =
    if is_canceled e
    then (new_failure canceled request, stop)
    else if is_deadline e
    then (new_failure timeout route, next_route)
    else unclassified (as_net_error e)

-- `fallbackDecision`
unfoldable pub fallback_decision : Error → Failure × FailureAction
fallback_decision e =
    if is_unsupported e
    then (new_failure bad_request route, next_model)
    else by_failure e (as_failure e)

abbrev pub is_canceled_class : FailureClass → Bool
is_canceled_class canceled = true
is_canceled_class _ = false

abbrev pub has_canceled_class : Option (Failure × ℤ) → Bool
has_canceled_class none = false
has_canceled_class (some f) = is_canceled_class f.0.class

-- `isRequestCanceled`: the flag says that the client's context has an error.
unfoldable pub is_request_canceled : Bool → Error → Bool
is_request_canceled ctx_err e =
    if ctx_err || is_canceled e
    then true
    else if is_deadline e
    then ctx_err
    else has_canceled_class (as_failure e)

abbrev pub has_request_scope : Option (Failure × ℤ) → Bool
has_request_scope none = false
has_request_scope (some f) = is_request f.0.scope

-- `shouldRecordRouteFailure`
unfoldable pub should_record_route_failure : Bool → Error → Bool
should_record_route_failure ctx_err e =
    if is_request_canceled ctx_err e
    then false
    else if is_unsupported e
    then false
    else not (has_request_scope (as_failure e))

abbrev pub status_of_failure : Option (Failure × ℤ) → Option ℤ
status_of_failure (some (f, status)) = if is_positive status then some status else none
status_of_failure none = none

abbrev pub http_or_default : Error → Option (Failure × ℤ) → ℤ
http_or_default e (some (f, status)) = pos (http_status f)
http_or_default e none = if is_canceled e then pos 0 else pos 502

abbrev pub attempt_status : Error → Option ℤ → ℤ
attempt_status e (some status) = status
attempt_status e none = if is_unsupported e then pos 400 else http_or_default e (as_failure e)

-- `attemptHTTPStatus`
unfoldable pub attempt_http_status : Error → ℤ
attempt_http_status e =
    if is_nil e then pos 200 else attempt_status e (status_of_failure (as_failure e))

abbrev pub failure_status : Option (Failure × ℤ) → Option ℕ
failure_status (some (f, status)) = if is_canceled_class f.class then none else some (http_status f)
failure_status none = some 502

-- `writeUpstreamError`: the status of the response, and `none` where nothing is written.
unfoldable pub upstream_error_status : Error → Option ℕ
upstream_error_status e = if is_unsupported e then some 400 else failure_status (as_failure e)
