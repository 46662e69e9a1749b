-- ===== src/Gateway/Usage/Reported.antt =====
-- What the collector reports after the attempts of a request.

-- One attempt, as `record` is told of it.
use free_model_router.Gateway.Usage.{
  no_result, success, failure, canceled, partial, is_unset_or_success,
}
use free_model_router.Prelude.{
  ℕ, ◌+◌, ◌≡◌, refl, sym, ap, ◌∙◌, inl, inr, Bool, true, false, List, [], ◌∷◌, ◌++◌, arith,
  if◌then◌else◌, Bool-cases, length, length-append,
}
use free_model_router.Router.Filter.{Candidate}
use free_model_router.Gateway.Usage.{
  Collector, AttemptRecord, UsageResult, record_attempt, next_result, new_collector, new_record,
  success,
}
use free_model_router.Model.Route.{RouteId}
use free_model_router.Model.Failure.{empty, other_scope}
use free_model_router.Gateway.Errors.{
  fallback_decision, attempt_http_status, is_nil, Error, is_request_canceled,
}
use free_model_router.Gateway.Response.{TokenUsage}
use mathlib.Core.List.{append-nil, append_assoc}

pub record Told : Type 0 where
  pub ctx_err : Bool
  pub candidate : Candidate
  pub committed : Bool
  pub tokens : TokenUsage
  pub error : Error

unfoldable pub record_all : Collector → List Told → Collector
record_all k [] = k
record_all k (t ∷ ts) =
    record_all (record_attempt k t.ctx_err t.candidate t.committed t.tokens t.error) ts

-- The records of the attempts, numbered from `n` on: what each was told, the class and the scope that
-- `fallbackDecision` gives its error, and its status; an attempt without an error has no class.
abbrev pub records_from : ℕ → List Told → List AttemptRecord
records_from n [] = []
records_from n (t ∷ ts) =
    record {
      index = n;
      provider_model = t.candidate.model.id;
      route = t.candidate.route.id;
      failure_class = if is_nil t.error then empty else (fallback_decision t.error).0.class;
      failure_scope =
          if is_nil t.error then other_scope "" else (fallback_decision t.error).0.scope;
      committed = t.committed;
      http_status = attempt_http_status t.error;
      tokens = t.tokens;
    }
    ∷ records_from (n + 1) ts

-- The route of the last committed attempt.
abbrev pub last_committed : RouteId → List Told → RouteId
last_committed default [] = default
last_committed default (t ∷ ts) =
    last_committed (if t.committed then t.candidate.route.id else default) ts

-- Whether the last attempt succeeded.
abbrev pub ends_well : Bool → List Told → Bool
ends_well default [] = default
ends_well default (t ∷ ts) = ends_well (is_nil t.error) ts

abbrev pub is_success : UsageResult → Bool
is_success success = true
is_success _ = false

next_index :
    (l : List AttemptRecord) (x : AttemptRecord) → length (l ++ x ∷ []) + 1 ≡ length l + 1 + 1
next_index l x = omega (arith, length-append l (x ∷ []))

record_all-records :
    (ts : List Told) (k : Collector)
    → (record_all k ts).attempts ≡ k.attempts ++ records_from (length k.attempts + 1) ts
unfolding record_all record_attempt
record_all-records [] k = sym (append-nil k.attempts)
record_all-records (t ∷ ts) k =
    let added = new_record (length k.attempts + 1) t.candidate t.committed t.tokens t.error in
    record_all-records ts _
    ∙ append_assoc k.attempts (added ∷ []) _
    ∙ ap (λ n. k.attempts ++ added ∷ records_from n ts) (next_index k.attempts added)

record_all-final :
    (ts : List Told) (k : Collector)
    → (record_all k ts).final_route ≡ last_committed k.final_route ts
unfolding record_all record_attempt
record_all-final [] k = refl
record_all-final (t ∷ ts) k = record_all-final ts _

is_success-next_result :
    (ctx_err committed : Bool) (e : Error) (old : UsageResult)
    → is_success (next_result ctx_err committed e old) ≡ is_nil e
unfolding next_result
is_success-next_result ctx_err committed e old = elim (Bool-cases (is_nil e)) [
  | inl fine ↦ rw (fine) refl
  | inr failed ↦ elim (Bool-cases (is_request_canceled ctx_err e)) [
    | inl gone ↦ rw (failed, gone) refl
    | inr there ↦ rw (failed, there) (kept committed old)
  ]
]
  where
    kept :
        (c : Bool) (o : UsageResult)
        → is_success (if c then partial else if is_unset_or_success o then failure else o) ≡ false
    kept true o = refl
    kept false no_result = refl
    kept false success = refl
    kept false failure = refl
    kept false canceled = refl
    kept false partial = refl

record_all-success :
    (ts : List Told) (k : Collector)
    → is_success (record_all k ts).result ≡ ends_well (is_success k.result) ts
unfolding record_all record_attempt
record_all-success [] k = refl
record_all-success (t ∷ ts) k =
    record_all-success ts _
    ∙ ap (λ b. ends_well b ts) (is_success-next_result t.ctx_err t.committed t.error k.result)

-- After the attempts of a request, the collector holds one record for each, in the order of the attempts
-- and numbered from 1, with its model, its route, whether it committed, its tokens, its status and the
-- class and scope of its error; the final route is that of the last committed attempt; and its result is success
-- exactly when the last attempt ended without an error, whatever the attempts before it were.
pub record_all_lem :
    (ts : List Told)
    → let k = record_all new_collector ts in
      (k.attempts ≡ records_from 1 ts)
      × (k.final_route ≡ last_committed "" ts)
      × (is_success k.result ≡ ends_well false ts)
record_all_lem ts = (
  record_all-records ts new_collector,
  record_all-final ts new_collector,
  record_all-success ts new_collector,
)
