-- ===== src/Gateway/Attempts/Answer.antt =====
-- What a chat request sends to its client over all its attempts.
use free_model_router.Prelude.{
  ℕ, zero, suc, ◌+◌, ◌≡◌, refl, ◌⊎◌, inl, inr, Bool, true, false, not, ◌&&◌, Option, none, some,
  List, [], ◌∷◌, arith, ltb, Bool-cases,
}
use free_model_router.Gateway.Attempts.{
  Env, on_outcome, attempt_loop, chat, AttemptCandidate, Run, on_next, finish, is_stop,
  next_attempt_candidate, route_id,
}
use free_model_router.Router.Filter.{Candidate}
use free_model_router.Gateway.Errors.{Error, nil, is_nil, fallback_decision, upstream_error_status}
use free_model_router.Gateway.Policy.{FailoverPolicy}
use free_model_router.Model.Failure.{FailureAction, stop}
use free_model_router.Model.Route.{RouteId}
use mathlib.Core.List.{append-nil}
use free_model_router.Gateway.Response.{Sent, write_upstream_error, json_error, write_status}

-- What a client gets that is not a stream of an attempt: nothing, or one JSON error.
abbrev pub IsBrief : List Sent → Type 0
IsBrief sent = (sent ≡ []) ⊎ ((status : ℕ) × (sent ≡ json_error status ∷ []))

-- The answer of one handled attempt, or a brief one.
abbrev pub IsAnswer : Env → List Sent → Type 0
IsAnswer env sent =
    ((k : ℕ) × (c : Candidate) × ((env.attempt k c).handled ≡ true)
      × (sent ≡ (env.attempt k c).sent))
    ⊎ IsBrief sent

write_upstream_error-IsBrief : (e : Error) → IsBrief (write_upstream_error e)
unfolding write_upstream_error
write_upstream_error-IsBrief e = go (upstream_error_status e)
  where
    go : (o : Option ℕ) → IsBrief (write_status o)
    go none = inl refl
    go (some s) = inr (s, refl)

finish-IsBrief : (env : Env) (e : Error) → IsBrief (finish env e).sent
unfolding finish
finish-IsBrief env e = elim (Bool-cases env.gone) [
  | inl gone ↦ inl (ground arith)
  | inr here ↦ elim (Bool-cases (is_nil e)) [
    | inl empty_err ↦ inr (503, ground arith)
    | inr failed ↦ rw (here, failed) (write_upstream_error-IsBrief e)
  ]
]

module _ (env : Env)
    (quiet : (k : ℕ) (c : Candidate)
      → (env.attempt k c).handled ≡ false
      → (env.attempt k c).sent ≡ []) where
  on_outcome-IsAnswer :
      (k : ℕ) (c : AttemptCandidate) (continue : FailureAction → Error → Run)
      → ((a : FailureAction) (e : Error) → IsAnswer env (continue a e).sent)
      → IsAnswer env (on_outcome env c continue (env.attempt k c.candidate)).sent
  unfolding on_outcome
  on_outcome-IsAnswer k c continue more = elim (Bool-cases (env.attempt k c.candidate).handled) [
    | inl done ↦ inl (k, c.candidate, done, rw (done) (append-nil (env.attempt k c.candidate).sent))
    | inr open_still ↦
        let nothing_sent = quiet k c.candidate open_still in
        elim (Bool-cases (is_nil (env.attempt k c.candidate).error)) [
          | inl no_error ↦ inr (inl (rw (open_still, no_error, nothing_sent) refl))
          | inr failed ↦
              elim (Bool-cases (is_stop (fallback_decision (env.attempt k c.candidate).error).1)) [
                | inl stopped ↦
                    rw (open_still, failed, stopped, nothing_sent)
                      (inr (finish-IsBrief env (env.attempt k c.candidate).error))
                | inr goes_on ↦
                    rw (open_still, failed, goes_on, nothing_sent)
                      (more _ (env.attempt k c.candidate).error)
              ]
        ]
  ]

  on_next-IsAnswer :
      (k : ℕ) (last_err : Error) (continue : AttemptCandidate → FailureAction → Error → Run)
      (o : Option AttemptCandidate)
      → ((c : AttemptCandidate) (a : FailureAction) (e : Error)
          → IsAnswer env (continue c a e).sent)
      → IsAnswer env (on_next env k (finish env last_err) continue o).sent
  on_next-IsAnswer k last_err continue none more = inr (finish-IsBrief env last_err)
  on_next-IsAnswer k last_err continue (some c) more = on_outcome-IsAnswer k c (continue c) (more c)

  attempt_loop-IsAnswer :
      (candidates : List AttemptCandidate) (deadline left k : ℕ) (attempted : List RouteId)
      (previous : Option Candidate) (action : FailureAction) (last_err : Error)
      → IsAnswer env
          (attempt_loop env candidates deadline left k attempted previous action last_err).sent
  unfolding attempt_loop
  attempt_loop-IsAnswer candidates deadline zero k attempted previous action last_err =
      inr (finish-IsBrief env last_err)
  attempt_loop-IsAnswer candidates deadline (suc left) k attempted previous action last_err =
      elim (Bool-cases (env.ctx_err k)) [
        | inl gone ↦ rw (gone) (inr (inl refl))
        | inr here ↦ elim (Bool-cases (ltb 0 k && not (ltb (env.clock k) deadline))) [
          | inl late ↦ rw (here, late) (inr (finish-IsBrief env last_err))
          | inr in_time ↦
              rw (here, in_time)
                (on_next-IsAnswer k last_err _
                  (next_attempt_candidate candidates attempted previous action)
                  (λ c.
                    attempt_loop-IsAnswer candidates deadline left (k + 1) (route_id c ∷ attempted)
                      (some c.candidate)))
        ]
      ]

  -- If an attempt that is not handled sends nothing, the client gets the output of one handled attempt,
  -- one JSON error, or nothing, however many candidates were tried.
  pub chat-IsAnswer :
      (policy : FailoverPolicy) (explicit : Bool) (start : ℕ) (candidates : List AttemptCandidate)
      → IsAnswer env (chat env policy explicit start candidates).sent
  unfolding chat
  chat-IsAnswer policy explicit start [] = inr (inr (_, refl))
  chat-IsAnswer policy explicit start (c ∷ cs) =
      attempt_loop-IsAnswer (c ∷ cs) _ _ 0 [] none stop nil
