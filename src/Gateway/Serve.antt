-- ===== src/Gateway/Serve.antt =====
-- internal/gateway/attempt.go: `ChatHandler` from the resolution of the candidates to the answer.

-- A request for the model `m`.
use free_model_router.Prelude.{ℕ, ◌+◌, String, sym, inl, inr, Bool, Option, none, List, [], ◌∷◌, In}
use free_model_router.Gateway.Chat.{World, chat_handler, env_of}
use free_model_router.Gateway.Attempts.{Env, AttemptCandidate, Run, Tried}
use free_model_router.Gateway.Candidates.{
  Routing, is_explicit, resolve_attempt_candidates, requested, normal,
}
use free_model_router.Gateway.Policy.{FailoverPolicy}
use free_model_router.Model.Route.{RouteId}
use free_model_router.Router.Filter.{Candidate}
use free_model_router.Model.Failure.{FailureAction, stop}
use free_model_router.Gateway.Candidates.Resolved.{
  IsResolved, resolve_attempt_candidates-IsResolved,
}
use free_model_router.Gateway.Attempts.Failover.{Trail, chat-IsFailover}
use mathlib.Core.Path.{subst}

unfoldable pub serve : World → Routing → FailoverPolicy → Bool → ℕ → String → Run
serve w g policy stream start m =
    chat_handler w policy stream (is_explicit m) start (resolve_attempt_candidates g m)

Trail-In :
    (env : Env) (candidates : List AttemptCandidate) (deadline k : ℕ) (attempted : List RouteId)
    (previous : Option Candidate) (action : FailureAction) (ts : List Tried) (t : Tried)
    → Trail env candidates deadline k attempted previous action ts
    → In t ts
    → In t.candidate candidates
Trail-In env candidates deadline k attempted previous action [] t h i = absurd i
Trail-In env candidates deadline k attempted previous action (x ∷ ts) t h (inl e) =
    subst (λ y. In y.candidate candidates) (sym e) h.0.listed
Trail-In env candidates deadline k attempted previous action (x ∷ ts) t h (inr i) =
    Trail-In env candidates deadline (k + 1) _ _ _ ts t h.2 i

-- Whatever the upstreams return, a request sends its prompt to no route but a resolved one: each
-- candidate that is tried is eligible for the model that the request names or for the pool, or is a
-- fallback-only route of unknown access, of a model that has a normal candidate.
pub serve-IsResolved :
    (w : World) (g : Routing) (policy : FailoverPolicy) (stream : Bool) (start : ℕ) (m : String)
    (t : Tried)
    → In t (serve w g policy stream start m).tried
    → IsResolved g (requested g m) (normal g (requested g m)) t.candidate
unfolding serve chat_handler
serve-IsResolved w g policy stream start m t i =
    let f =
      chat-IsFailover (env_of w stream) policy (is_explicit m) start
        (resolve_attempt_candidates g m) in
    resolve_attempt_candidates-IsResolved g m t.candidate
      (Trail-In (env_of w stream) _ _ 0 [] none stop _ t f.trail i)
