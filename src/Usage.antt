-- ===== src/Usage.antt =====
-- internal/usage/usage.go: the records of requests, how one is normalised before it is kept, and what
-- a query selects. Times are nanoseconds with Go's zero time as 0, so that `UTC` changes nothing; an
-- index is never negative. The comparison of texts without their case is a parameter.
pub mod Events
pub mod Retention
pub mod Store
use free_model_router.Prelude.Int.{ℤ, pos, eq_ℤ}
use free_model_router.Prelude.Text.{str_eq}
use free_model_router.Model.Route.{ProviderModelId, RouteId}
use free_model_router.Gateway.Response.{TokenUsage}
use free_model_router.Gateway.Usage.{
  AttemptRecord, UsageResult, no_result, success, failure, canceled, partial,
}
use free_model_router.Prelude.{
  ℕ, zero, suc, ◌+◌, ◌-◌, ◌*◌, ◌/◌, ◌%◌, ◌^◌, ◌≤◌, ◌<◌, String, ◌≡◌, refl, sym, ap, ◌∙◌, ◌≢◌, ◌↔◌,
  ◌⊎◌, inl, inr, Bool, true, false, not, ◌&&◌, ◌||◌, Option, none, some, List, [], ◌∷◌, ◌++◌, arith,
  ltb, leb, ◌==◌, if◌then◌else◌, Bool-cases, Option-cases, &&_iff, bool_ext, Result, ok, err,
  Result-cases, length, All, length-append, All-append, In, In-append_left, In-append_right,
  In-append_cases, All-In,
}

pub record RequestRecord : Type 0 where
  pub id : String
  pub started_at : ℕ
  pub completed_at : ℕ
  pub provider : String
  pub final_model : ProviderModelId
  pub final_route : RouteId
  pub attempts : List AttemptRecord
  pub result : UsageResult
  pub fallback : Bool
  pub total_tokens : TokenUsage

-- A nil pointer is `none`.
pub record Query : Type 0 where
  pub from : ℕ
  pub to : ℕ
  pub provider : String
  pub model : String
  pub result : UsageResult
  pub fallback : Option Bool
  pub offset : ℤ
  pub limit : ℤ

-- `tokens == (TokenUsage{})`
abbrev pub is_zero_usage : TokenUsage → Bool
is_zero_usage t = eq_ℤ t.prompt (pos 0) && (eq_ℤ t.completion (pos 0) && eq_ℤ t.total (pos 0))

-- A missing index is the place of the attempt, counted from 1.
unfoldable pub number_attempts : ℕ → List AttemptRecord → List AttemptRecord
number_attempts i [] = []
number_attempts i (a ∷ rest) =
    (if a.index == 0 then record a { index = i + 1 } else a) ∷ number_attempts (i + 1) rest

-- The tokens of the last committed attempt that has any.
unfoldable pub committed_tokens : List AttemptRecord → Option TokenUsage
committed_tokens [] = none
committed_tokens (a ∷ rest) = elim (committed_tokens rest) [
  | some t ↦ some t
  | none ↦ if a.committed && not (is_zero_usage a.tokens) then some a.tokens else none
]

abbrev pub tokens_or_given : TokenUsage → Option TokenUsage → TokenUsage
tokens_or_given t none = t
tokens_or_given t (some u) = u

unfoldable pub total_or_committed : TokenUsage → List AttemptRecord → TokenUsage
unfolding committed_tokens
total_or_committed t attempts =
    if is_zero_usage t then tokens_or_given t (committed_tokens attempts) else t

abbrev pub started_or : ℕ → ℕ → ℕ → ℕ
started_or started completed now =
    if started == 0 then (if completed == 0 then now else completed) else started

-- `normalizeRecord`, with the id that `NewRequestID` gives
unfoldable pub normalize_record : String → RequestRecord → ℕ → RequestRecord
unfolding number_attempts total_or_committed
normalize_record fresh_id r now =
    let started = started_or r.started_at r.completed_at now in
    let attempts = number_attempts 0 r.attempts in
    record r {
      id = if str_eq r.id "" then fresh_id else r.id;
      started_at = started;
      completed_at = if r.completed_at == 0 then started else r.completed_at;
      attempts = attempts;
      fallback = if ltb 1 (length attempts) then true else r.fallback;
      total_tokens = total_or_committed r.total_tokens attempts;
    }

abbrev pub result_text : UsageResult → String
result_text no_result = ""
result_text success = "success"
result_text failure = "failure"
result_text canceled = "canceled"
result_text partial = "partial"

abbrev pub bool_eq : Bool → Bool → Bool
bool_eq true b = b
bool_eq false b = not b

abbrev pub fallback_fits : Bool → Option Bool → Bool
fallback_fits b none = true
fallback_fits b (some c) = bool_eq b c

-- `matches`
unfoldable pub matches : (String → String → Bool) → RequestRecord → Query → Bool
matches equal_fold r q =
    if not (q.from == 0) && ltb r.started_at q.from
    then false
    else if not (q.to == 0) && ltb q.to r.started_at
    then false
    else if not (str_eq q.provider "") && not (equal_fold r.provider q.provider)
    then false
    else if not (str_eq q.model "") && not (str_eq r.final_model q.model)
    then false
    else if not (str_eq (result_text q.result) "")
        && not (str_eq (result_text r.result) (result_text q.result))
    then false
    else fallback_fits r.fallback q.fallback
