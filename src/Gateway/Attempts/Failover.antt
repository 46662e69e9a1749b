-- ===== src/Gateway/Attempts/Failover.antt =====
-- The loop over the attempts: which candidates it tries.

-- The candidates tried, from the k-th attempt on: each is a next candidate after the failure of the one
-- before it, and only the first of all may start at or after the deadline.
use free_model_router.Prelude.{
  ℕ, zero, suc, ◌+◌, ◌≤◌, ◌<◌, ◌≡◌, refl, inl, inr, not, ◌&&◌, ◌||◌, Option, none, some, List, [],
  ◌∷◌, arith, ltb, Bool-cases, length, false, Bool, ap, ◌⊎◌,
}
use free_model_router.Gateway.Attempts.{
  Env, finish, on_outcome, attempt_loop, AttemptCandidate, Run, Tried, Outcome, route_id, is_stop,
  next_attempt_candidate, on_next, chat,
}
use free_model_router.Router.Filter.{Candidate}
use free_model_router.Gateway.Errors.{Error, is_nil, fallback_decision, nil}
use free_model_router.Model.Route.{RouteId}
use free_model_router.Model.Failure.{FailureAction, stop}
use free_model_router.Gateway.Attempts.Next.{IsNext, next_attempt_candidate-IsNext}
use free_model_router.Catalog.Pool.{contains}
use free_model_router.Catalog.Pool.Selection.{IsDistinct}
use free_model_router.Gateway.Policy.{
  max_configured_attempts, FailoverPolicy, normalized, normalized-IsBounded,
}
use free_model_router.Prelude.Int.{to_ℕ}

abbrev pub Trail :
    Env
    → List AttemptCandidate
    → ℕ
    → ℕ
    → List RouteId
    → Option Candidate
    → FailureAction
    → List Tried
    → Type 0
Trail env candidates deadline k attempted previous action [] = Unit
Trail env candidates deadline k attempted previous action (t ∷ ts) =
    IsNext candidates attempted previous action t.candidate
    × ((k ≡ 0) ⊎ (env.clock k < deadline))
    × Trail env candidates deadline (k + 1) (route_id t.candidate ∷ attempted)
        (some t.candidate.candidate) (fallback_decision t.error).1 ts

finish-tried : (env : Env) (e : Error) → (finish env e).tried ≡ []
unfolding finish
finish-tried env e = ground arith

abbrev Good :
    Env
    → List AttemptCandidate
    → ℕ
    → ℕ
    → ℕ
    → List RouteId
    → Option Candidate
    → FailureAction
    → Run
    → Type 0
Good env candidates deadline left k attempted previous action r =
    Trail env candidates deadline k attempted previous action r.tried × (length r.tried ≤ left)

finish-Good :
    (env : Env) (candidates : List AttemptCandidate) (deadline left k : ℕ)
    (attempted : List RouteId) (previous : Option Candidate) (action : FailureAction) (e : Error)
    → Good env candidates deadline left k attempted previous action (finish env e)
finish-Good env candidates deadline left k attempted previous action e =
    rw (finish-tried env e) (tt, omega arith)

-- An attempt on a next candidate, before a run that is good after it.
on_outcome-Good :
    (env : Env) (candidates : List AttemptCandidate) (deadline left k : ℕ)
    (attempted : List RouteId) (previous : Option Candidate) (action : FailureAction)
    (c : AttemptCandidate) (continue : FailureAction → Error → Run) (o : Outcome)
    → IsNext candidates attempted previous action c
    → ((k ≡ 0) ⊎ (env.clock k < deadline))
    → ((a : FailureAction) (e : Error)
        → Good env candidates deadline left
            (k + 1)
            (route_id c ∷ attempted)
            (some c.candidate)
            a
            (continue a e))
    → Good env candidates deadline
        (suc left)
        k
        attempted
        previous
        action
        (on_outcome env c continue o)
unfolding on_outcome
on_outcome-Good env candidates deadline left k attempted previous action c continue o n time more =
    elim (Bool-cases (o.handled || is_nil o.error)) [
      | inl over ↦ rw (over) ((n, time, tt), omega arith)
      | inr failed ↦ elim (Bool-cases (is_stop (fallback_decision o.error).1)) [
        | inl stopped ↦
            let g =
              finish-Good env candidates deadline left (k + 1) (route_id c ∷ attempted)
                (some c.candidate) (fallback_decision o.error).1 o.error in
            rw (failed, stopped) ((n, time, g.0), omega (arith, g.1))
        | inr goes_on ↦
            let g = more (fallback_decision o.error).1 o.error in
            rw (failed, goes_on) ((n, time, g.0), omega (arith, g.1))
      ]
    ]

attempt_loop-Good :
    (env : Env) (candidates : List AttemptCandidate) (deadline left k : ℕ)
    (attempted : List RouteId) (previous : Option Candidate) (action : FailureAction)
    (last_err : Error)
    → Good env candidates deadline left k attempted previous action
        (attempt_loop env candidates deadline left k attempted previous action last_err)
unfolding attempt_loop
attempt_loop-Good env candidates deadline zero k attempted previous action last_err =
    finish-Good env candidates deadline zero k attempted previous action last_err
attempt_loop-Good env candidates deadline (suc left) k attempted previous action last_err =
    elim (Bool-cases (env.ctx_err k)) [
      | inl gone ↦ rw (gone) (tt, omega arith)
      | inr here ↦ elim (Bool-cases (ltb 0 k && not (ltb (env.clock k) deadline))) [
        | inl late ↦
            rw (here, late)
              (finish-Good env candidates deadline (suc left) k attempted previous action last_err)
        | inr in_time ↦
            rw (here, in_time)
              (go (next_attempt_candidate candidates attempted previous action) refl
                (λ c.
                  attempt_loop-Good env candidates deadline left (k + 1) (route_id c ∷ attempted)
                    (some c.candidate))
                (ground arith))
      ]
    ]
  where
    go :
        (o : Option AttemptCandidate)
        → next_attempt_candidate candidates attempted previous action ≡ o
        → ((c : AttemptCandidate) (a : FailureAction) (e : Error)
            → Good env candidates deadline left
                (k + 1)
                (route_id c ∷ attempted)
                (some c.candidate)
                a
                (attempt_loop env candidates deadline left
                  (k + 1)
                  (route_id c ∷ attempted)
                  (some c.candidate)
                  a
                  e))
        → ((k ≡ 0) ⊎ (env.clock k < deadline))
        → Good env candidates deadline (suc left) k attempted previous action (
            on_next env k
              (finish env last_err)
              (λ c.
                attempt_loop env candidates deadline left
                  (k + 1)
                  (route_id c ∷ attempted)
                  (some c.candidate))
              o)
    go none none_left more time =
        finish-Good env candidates deadline (suc left) k attempted previous action last_err
    go (some c) found more time =
        on_outcome-Good env candidates deadline left k attempted previous action c _
          (env.attempt k c.candidate)
          (next_attempt_candidate-IsNext candidates attempted previous action c found) time (more c)

abbrev pub routes_tried : List Tried → List RouteId
routes_tried [] = []
routes_tried (t ∷ ts) = route_id t.candidate ∷ routes_tried ts

-- No route of the list is one of these.
abbrev Avoids : List RouteId → List RouteId → Type 0
Avoids attempted [] = Unit
Avoids attempted (r ∷ rs) = (contains attempted r ≡ false) × Avoids attempted rs

Avoids-tail :
    (x : RouteId) (attempted rs : List RouteId) → Avoids (x ∷ attempted) rs → Avoids attempted rs
unfolding contains
Avoids-tail x attempted [] h = tt
Avoids-tail x attempted (r ∷ rs) h =
    let head = h.0 in (ground arith, Avoids-tail x attempted rs h.1)

Avoids-head :
    (x : RouteId) (attempted rs : List RouteId) → Avoids (x ∷ attempted) rs → contains rs x ≡ false
unfolding contains
Avoids-head x attempted [] h = refl
Avoids-head x attempted (r ∷ rs) h =
    let head = h.0 in ground (arith, Avoids-head x attempted rs h.1)

Trail-Avoids :
    (env : Env) (candidates : List AttemptCandidate) (deadline k : ℕ) (attempted : List RouteId)
    (previous : Option Candidate) (action : FailureAction) (ts : List Tried)
    → Trail env candidates deadline k attempted previous action ts
    → Avoids attempted (routes_tried ts) × IsDistinct (routes_tried ts)
Trail-Avoids env candidates deadline k attempted previous action [] h = (tt, tt)
Trail-Avoids env candidates deadline k attempted previous action (t ∷ ts) h =
    let rest = Trail-Avoids env candidates deadline (k + 1) _ _ _ ts h.2 in
    (
      (h.0.fresh, Avoids-tail (route_id t.candidate) attempted (routes_tried ts) rest.0),
      (Avoids-head (route_id t.candidate) attempted (routes_tried ts) rest.0, rest.1),
    )

pub record IsFailover (env : Env) (candidates : List AttemptCandidate) (deadline most : ℕ)
    (ts : List Tried) : Type 0 where
  pub trail : Trail env candidates deadline 0 [] none stop ts
  pub at_most : length ts ≤ most
  pub hundred : length ts ≤ max_configured_attempts
  pub distinct : IsDistinct (routes_tried ts)

-- Whatever the attempts return and the clock shows, a chat request tries at most the normalized number
-- of candidates, never more than 100, and no route twice; the first one is a normal candidate, each
-- later one is a next candidate after the failure of the one before it, and none but the first starts
-- at or after the deadline.
pub chat-IsFailover :
    (env : Env) (policy : FailoverPolicy) (explicit : Bool) (start : ℕ)
    (candidates : List AttemptCandidate)
    → IsFailover env candidates
        (start + to_ℕ (normalized policy).budget)
        (to_ℕ (normalized policy).max_attempts)
        (chat env policy explicit start candidates).tried
unfolding chat
chat-IsFailover env policy explicit start [] = record {
  trail = tt;
  at_most = omega arith;
  hundred = omega arith;
  distinct = tt;
}
chat-IsFailover env policy explicit start (c ∷ cs) =
    let deadline = start + to_ℕ (normalized policy).budget in
    let most = to_ℕ (normalized policy).max_attempts in
    let g = attempt_loop-Good env (c ∷ cs) deadline most 0 [] none stop nil in
    let b = (normalized-IsBounded policy).0 in
    record {
      trail = g.0;
      at_most = g.1;
      hundred = omega (arith, g.1, ap to_ℕ b.max_attempts, b.attempts_bound);
      distinct = (Trail-Avoids env (c ∷ cs) deadline 0 [] none stop _ g.0).1;
    }
