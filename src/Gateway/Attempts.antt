-- ===== src/Gateway/Attempts.antt =====
-- internal/gateway/attempt.go: the choice of the next candidate, and the loop of `ChatHandler` over
-- the attempts.
pub mod Next
pub mod Failover
pub mod Answer
use free_model_router.Prelude.{
  ℕ, zero, suc, ◌+◌, String, Bool, true, false, not, ◌&&◌, ◌||◌, Option, none, some, List, [], ◌∷◌,
  ◌++◌, ltb, ◌==◌, if◌then◌else◌,
}
use free_model_router.Router.Filter.{Candidate}
use Prim.Native.Char.{code}
use free_model_router.Prelude.Text.{str_eq}
use free_model_router.Model.Route.{ProviderRoute, RouteId, ProviderModelId}
use free_model_router.Model.Failure.{
  FailureAction, next_route, stop, next_model, disable_credential, disable_route, cooldown_provider,
}
use free_model_router.Gateway.Errors.{Error, is_nil, fallback_decision, nil}
use free_model_router.Gateway.Response.{Sent, json_error, write_upstream_error}
use free_model_router.Gateway.Policy.{FailoverPolicy, normalized}
use free_model_router.Catalog.Pool.{contains}
use free_model_router.Prelude.Int.{to_ℕ}

pub record AttemptCandidate : Type 0 where
  pub candidate : Candidate
  pub fallback_only : Bool

-- The text before the first "::", as `strings.Index` finds it.
abbrev pub starts_with_colons : String → Bool
starts_with_colons s = elim s [
  | String.[] ↦ false
  | String.◌∷◌ c rest ↦ elim rest [
    | String.[] ↦ false
    | String.◌∷◌ d more ↦ (code c == 58) && (code d == 58)
  ]
]

unfoldable pub before_colons : String → Option String
before_colons String.[] = none
before_colons (String.◌∷◌ c s) =
    let rest = before_colons s in
    if starts_with_colons (String.◌∷◌ c s)
    then some ""
    else elim rest [ none ↦ none | some t ↦ some (String.◌∷◌ c t) ]

abbrev pub prefix_or : String → Option String → String
prefix_or default none = default
prefix_or default (some s) = if str_eq s "" then default else s

-- `credentialKey`
unfoldable pub credential_key : ProviderRoute → String
credential_key r =
    if not (str_eq r.credential_id "")
    then r.credential_id
    else prefix_or r.provider (before_colons r.id)

abbrev pub route_id : AttemptCandidate → RouteId
route_id c = c.candidate.route.id

abbrev pub model_id : AttemptCandidate → ProviderModelId
model_id c = c.candidate.model.id

-- the `switch` of `acceptable`
unfoldable pub allowed_by : FailureAction → Candidate → AttemptCandidate → Bool
allowed_by next_route previous c = true
allowed_by next_model previous c =
    not c.fallback_only && not (str_eq (model_id c) previous.model.id)
allowed_by disable_credential previous c =
    not (str_eq (credential_key c.candidate.route) (credential_key previous.route))
allowed_by disable_route previous c = not (str_eq (route_id c) previous.route.id)
allowed_by cooldown_provider previous c =
    not (str_eq c.candidate.route.provider previous.route.provider)
allowed_by stop previous c = false

-- `acceptable`
unfoldable pub acceptable : List RouteId → FailureAction → Candidate → AttemptCandidate → Bool
acceptable attempted action previous c =
    if contains attempted (route_id c)
    then false
    else if c.fallback_only && not (str_eq (model_id c) previous.model.id)
    then false
    else allowed_by action previous c

-- A loop that returns the first candidate that passes a test.
unfoldable pub first : (AttemptCandidate → Bool) → List AttemptCandidate → Option AttemptCandidate
first ok_for [] = none
first ok_for (c ∷ cs) = let rest = first ok_for cs in if ok_for c then some c else rest

abbrev pub is_next_route : FailureAction → Bool
is_next_route next_route = true
is_next_route _ = false

abbrev pub or_else : Option AttemptCandidate → Option AttemptCandidate → Option AttemptCandidate
or_else (some c) other = some c
or_else none other = other

-- `nextAttemptCandidate`: the first attempt has no previous candidate.
unfoldable pub next_attempt_candidate :
    List AttemptCandidate
    → List RouteId
    → Option Candidate
    → FailureAction
    → Option AttemptCandidate
next_attempt_candidate candidates attempted none action =
    first (λ c. not c.fallback_only && not (contains attempted (route_id c))) candidates
next_attempt_candidate candidates attempted (some previous) action =
    or_else
      (if is_next_route action
        then first
            (λ c. acceptable attempted action previous c && str_eq (model_id c) previous.model.id)
            candidates
        else none)
      (first (acceptable attempted action previous) candidates)

-- What `runStreamingAttempt` or `runNonStreamingAttempt` returns, and what it wrote.
pub record Outcome : Type 0 where
  pub handled : Bool
  pub error : Error
  pub sent : List Sent

-- What the loop reads from outside at its k-th attempt: whether the client's context has an error, the
-- clock, and the attempt itself. `gone` is the context after the loop.
pub record Env : Type 0 where
  pub ctx_err : ℕ → Bool
  pub clock : ℕ → ℕ
  pub attempt : ℕ → Candidate → Outcome
  pub gone : Bool

pub record Tried : Type 0 where
  pub candidate : AttemptCandidate
  pub error : Error

-- The candidates tried, in order, with the error of each, and what the client was sent.
pub record Run : Type 0 where
  pub tried : List Tried
  pub sent : List Sent

abbrev pub silent : Run
silent = record { tried = []; sent = [] }

-- the code behind the loop
unfoldable pub finish : Env → Error → Run
finish env last_err =
    if env.gone
    then silent
    else if not (is_nil last_err)
    then record { tried = []; sent = write_upstream_error last_err }
    else record { tried = []; sent = json_error 503 ∷ [] }

abbrev pub is_stop : FailureAction → Bool
is_stop stop = true
is_stop _ = false

abbrev pub then_run : Tried → List Sent → Run → Run
then_run t sent r = record { tried = t ∷ r.tried; sent = sent ++ r.sent }

-- The loop body behind the attempt; `continue` is the rest of the loop.
unfoldable pub on_outcome : Env → AttemptCandidate → (FailureAction → Error → Run) → Outcome → Run
on_outcome env c continue o =
    let t : Tried = record { candidate = c; error = o.error } in
    if o.handled || is_nil o.error
    then then_run t o.sent silent
    else if is_stop (fallback_decision o.error).1
    then then_run t o.sent (finish env o.error)
    else then_run t o.sent (continue (fallback_decision o.error).1 o.error)

-- Without a next candidate the loop is left.
abbrev pub on_next :
    Env → ℕ → Run → (AttemptCandidate → FailureAction → Error → Run) → Option AttemptCandidate → Run
on_next env k left_run continue none = left_run
on_next env k left_run continue (some c) = on_outcome env c (continue c) (env.attempt k c.candidate)

-- The loop, with the number of attempts left.
unfoldable pub attempt_loop :
    Env
    → List AttemptCandidate
    → ℕ
    → ℕ
    → ℕ
    → List RouteId
    → Option Candidate
    → FailureAction
    → Error
    → Run
attempt_loop env candidates deadline zero k attempted previous action last_err = finish env last_err
attempt_loop env candidates deadline (suc left) k attempted previous action last_err =
    if env.ctx_err k
    then silent
    else if ltb 0 k && not (ltb (env.clock k) deadline)
    then finish env last_err
    else on_next env k (finish env last_err)
        (λ c.
          attempt_loop env candidates deadline left (k + 1) (route_id c ∷ attempted)
            (some c.candidate))
        (next_attempt_candidate candidates attempted previous action)

-- `ChatHandler` from the candidates on. The flag says that the request names a model of its own; the
-- clock is read at `start`.
unfoldable pub chat : Env → FailoverPolicy → Bool → ℕ → List AttemptCandidate → Run
chat env policy explicit start [] = record {
  tried = [];
  sent = json_error (if explicit then 400 else 503) ∷ [];
}
chat env policy explicit start (c ∷ cs) =
    attempt_loop env (c ∷ cs) (start + to_ℕ (normalized policy).budget)
      (to_ℕ (normalized policy).max_attempts) 0 [] none stop nil
