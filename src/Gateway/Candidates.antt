-- ===== src/Gateway/Candidates.antt =====
-- internal/gateway/attempt.go and performance.go: which candidates a request has, in which order.
pub mod Resolved
use free_model_router.Router.Filter.{filter}
use free_model_router.Model.Access.{is_unknown}
use free_model_router.Prelude.{
  String, Bool, true, false, not, ◌&&◌, ◌||◌, Option, none, some, List, [], ◌∷◌, ◌++◌,
  if◌then◌else◌,
}
use free_model_router.Prelude.Text.{str_eq}
use free_model_router.Router.Filter.{FilterInput, Candidate}
use free_model_router.Gateway.Attempts.{AttemptCandidate}
use free_model_router.Model.Snapshot.{CatalogSnapshot}
use free_model_router.Model.Route.{ProviderModelId, RouteId, effective_access}
use free_model_router.Router.Rank.{rank_with_score, TtftLookup, ScoreLookup}

-- `isAutoModel`
unfoldable pub is_auto_model : String → Bool
is_auto_model m = str_eq m "fmr/auto" || str_eq m "afm/auto"

-- What the gateway holds when a request comes: the input that `filterInputLocked` builds, whose explicit
-- id is "", the pinned model, the fresh latencies, and the score, which is `none` where the candidates
-- have no performance data.
pub record Routing : Type 0 where
  pub base : FilterInput
  pub pinned_model : ProviderModelId
  pub fresh_ttft : TtftLookup
  pub score_of : List Candidate → Option ScoreLookup

-- `rankCandidates`
unfoldable pub rank_candidates : Routing → List Candidate → List Candidate
rank_candidates g cs = rank_with_score cs (some g.fresh_ttft) (g.score_of cs)

unfoldable pub has_route : List Candidate → RouteId → Bool
has_route [] id = false
has_route (c ∷ cs) id = let rest = has_route cs id in if str_eq c.route.id id then true else rest

unfoldable pub has_model : List Candidate → ProviderModelId → Bool
has_model [] id = false
has_model (c ∷ cs) id = let rest = has_model cs id in if str_eq c.model.id id then true else rest

-- the loop of `rankedUnique`, with the candidates seen
unfoldable pub unseen : List Candidate → List Candidate → List Candidate
unseen seen [] = []
unseen seen (c ∷ cs) =
    let old = unseen seen cs in
    let new = c ∷ unseen (c ∷ seen) cs in if has_route seen c.route.id then old else new

-- `rankedUnique`
unfoldable pub ranked_unique : Routing → List Candidate → List Candidate → List Candidate
ranked_unique g cs existing = unseen existing (rank_candidates g cs)

-- A request for the automatic model is one for the pinned model where there is one.
unfoldable pub requested : Routing → String → String
requested g m = if is_auto_model m && not (str_eq g.pinned_model "") then g.pinned_model else m

unfoldable pub is_explicit : String → Bool
is_explicit m = not (str_eq m "") && not (is_auto_model m)

abbrev pub explicit_input : FilterInput → String → FilterInput
explicit_input input m = record input { explicit_id = m }

abbrev pub eligible : FilterInput → List Candidate
eligible input = (filter input).eligible

abbrev pub and_pool : Routing → List Candidate → List Candidate
and_pool g [] = []
and_pool g (c ∷ cs) = (c ∷ cs) ++ ranked_unique g (eligible (explicit_input g.base "")) (c ∷ cs)

-- the normal candidates: an explicit model without an eligible route has none
unfoldable pub normal : Routing → String → List Candidate
normal g m =
    if is_explicit m
    then and_pool g (rank_candidates g (eligible (explicit_input g.base m)))
    else rank_candidates g (eligible g.base)

-- the candidates where unknown access is allowed
unfoldable pub unknown_candidates : Routing → String → List Candidate
unknown_candidates g m =
    let input = record g.base { allow_unknown = true } in
    rank_candidates g (
      if is_explicit m
      then eligible (explicit_input input m) ++ eligible (explicit_input input "")
      else eligible input)

abbrev pub as_normal : List Candidate → List AttemptCandidate
as_normal [] = []
as_normal (c ∷ cs) = record { candidate = c; fallback_only = false } ∷ as_normal cs

-- the last loop of `resolveAttemptCandidates`
unfoldable pub fallbacks : List Candidate → List Candidate → List AttemptCandidate
fallbacks ns [] = []
fallbacks ns (c ∷ cs) =
    let rest = fallbacks ns cs in
    if has_route ns c.route.id
      || not (has_model ns c.model.id)
      || not (is_unknown (effective_access c.route))
    then rest
    else record { candidate = c; fallback_only = true } ∷ rest

abbrev pub is_none : List Candidate → Bool
is_none [] = true
is_none (c ∷ cs) = false

abbrev pub resolve_requested : Routing → String → List AttemptCandidate
resolve_requested g m =
    if is_explicit m && is_none (normal g m)
    then []
    else as_normal (normal g m) ++ fallbacks (normal g m) (unknown_candidates g m)

abbrev pub is_absent : Option CatalogSnapshot → Bool
is_absent none = true
is_absent (some s) = false

-- `resolveAttemptCandidates`
unfoldable pub resolve_attempt_candidates : Routing → String → List AttemptCandidate
resolve_attempt_candidates g m =
    if is_absent g.base.catalog then [] else resolve_requested g (requested g m)
