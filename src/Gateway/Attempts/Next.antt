-- ===== src/Gateway/Attempts/Next.antt =====
-- `nextAttemptCandidate` against a description of the candidates that a failure leaves.

-- Where a failure lets the request move on to: by the action that was decided for it.
use free_model_router.Model.Failure.{stop}
use free_model_router.Prelude.{
  ◌≡◌, refl, sym, ap, ◌∙◌, ◌≢◌, ◌↔◌, ◌⊎◌, inl, inr, Bool, true, false, ◌&&◌, Option, none, some,
  List, [], ◌∷◌, arith, if◌then◌else◌, Bool-cases, In,
}
use free_model_router.Model.Failure.{
  FailureAction, next_route, next_model, disable_credential, disable_route, cooldown_provider,
}
use free_model_router.Router.Filter.{Candidate}
use free_model_router.Gateway.Attempts.{
  AttemptCandidate, first, acceptable, model_id, allowed_by, credential_key, route_id, or_else,
  next_attempt_candidate, is_next_route,
}
use free_model_router.Prelude.Text.{str_eq, str_eq→eq}
use free_model_router.Model.Route.{RouteId}
use free_model_router.Catalog.Pool.{contains}
use mathlib.Core.Bool.{false≢true}

abbrev pub Moves : FailureAction → Candidate → AttemptCandidate → Type 0
Moves next_route p c = Unit
Moves next_model p c = (c.fallback_only ≡ false) × (model_id c ≢ p.model.id)
Moves disable_credential p c = credential_key c.candidate.route ≢ credential_key p.route
Moves disable_route p c = route_id c ≢ p.route.id
Moves cooldown_provider p c = c.candidate.route.provider ≢ p.route.provider
Moves stop p c = ⊥

-- The first attempt is on a normal candidate; a later one may be on a fallback-only route of the
-- model tried before.
abbrev pub Follows : Option Candidate → FailureAction → AttemptCandidate → Type 0
Follows none action c = c.fallback_only ≡ false
Follows (some p) action c =
    ((c.fallback_only ≡ false) ⊎ (model_id c ≡ p.model.id)) × Moves action p c

-- A candidate of the list that was not tried yet and that the last failure leaves.
pub record IsNext (candidates : List AttemptCandidate) (attempted : List RouteId)
    (previous : Option Candidate) (action : FailureAction) (c : AttemptCandidate) : Type 0 where
  pub listed : In c candidates
  pub fresh : contains attempted (route_id c) ≡ false
  pub follows : Follows previous action c

first-some :
    (ok_for : AttemptCandidate → Bool) (cs : List AttemptCandidate) (c : AttemptCandidate)
    → first ok_for cs ≡ some c
    → In c cs × (ok_for c ≡ true)
unfolding first
first-some ok_for [] c e = ground arith
first-some ok_for (x ∷ cs) c e = elim (Bool-cases (ok_for x)) [
  | inl h ↦ let same : c ≡ x = ground arith in (inl same, ap ok_for same ∙ h)
  | inr h ↦ let i = first-some ok_for cs c (ground arith) in (inr i.0, i.1)
]

first-none :
    (ok_for : AttemptCandidate → Bool) (cs : List AttemptCandidate) (c : AttemptCandidate)
    → first ok_for cs ≡ none
    → In c cs
    → ok_for c ≡ false
unfolding first
first-none ok_for [] c e i = absurd i
first-none ok_for (x ∷ cs) c e (inl same) = elim (Bool-cases (ok_for x)) [
  | inl h ↦ ground arith
  | inr h ↦ ap ok_for same ∙ h
]
first-none ok_for (x ∷ cs) c e (inr i) = elim (Bool-cases (ok_for x)) [
  | inl h ↦ ground arith
  | inr h ↦ first-none ok_for cs c (ground arith) i
]

acceptable_iff :
    (attempted : List RouteId) (action : FailureAction) (p : Candidate) (c : AttemptCandidate)
    → (acceptable attempted action p c ≡ true)
      ↔ ((contains attempted (route_id c) ≡ false) × Follows (some p) action c)
unfolding acceptable allowed_by
acceptable_iff attempted next_route p c = (ground arith, ground arith)
acceptable_iff attempted next_model p c = (ground arith, ground arith)
acceptable_iff attempted disable_credential p c = (ground arith, ground arith)
acceptable_iff attempted disable_route p c = (ground arith, ground arith)
acceptable_iff attempted cooldown_provider p c = (ground arith, ground arith)
acceptable_iff attempted stop p c = (ground arith, ground arith)

IsNext-acceptable :
    (candidates : List AttemptCandidate) (attempted : List RouteId) (p : Candidate)
    (action : FailureAction) (c : AttemptCandidate)
    → In c candidates
    → acceptable attempted action p c ≡ true
    → IsNext candidates attempted (some p) action c
IsNext-acceptable candidates attempted p action c i h =
    let a = (acceptable_iff attempted action p c).0 h in
    record { listed = i; fresh = a.0; follows = a.1 }

or_else-some :
    (a b : Option AttemptCandidate) (c : AttemptCandidate)
    → or_else a b ≡ some c
    → (a ≡ some c) ⊎ (b ≡ some c)
or_else-some none b c e = inr e
or_else-some (some x) b c e = inl e

or_else-none : (a b : Option AttemptCandidate) → or_else a b ≡ none → b ≡ none
or_else-none none b e = e
or_else-none (some x) b e = ground arith

abbrev near : List RouteId → Candidate → AttemptCandidate → Bool
near attempted p x = acceptable attempted next_route p x && str_eq (model_id x) p.model.id

near-true :
    (attempted : List RouteId) (p : Candidate) (c : AttemptCandidate)
    → contains attempted (route_id c) ≡ false
    → model_id c ≡ p.model.id
    → near attempted p c ≡ true
unfolding acceptable allowed_by
near-true attempted p c fresh same = ground arith

near_lem :
    (attempted : List RouteId) (action : FailureAction) (p : Candidate) (b : Bool)
    (candidates : List AttemptCandidate) (c : AttemptCandidate)
    → (if b
        then first
            (λ x. acceptable attempted action p x && str_eq (model_id x) p.model.id)
            candidates
        else none)
      ≡ some c
    → In c candidates × (acceptable attempted action p c ≡ true) × (model_id c ≡ p.model.id)
near_lem attempted action p false candidates c e = ground arith
near_lem attempted action p true candidates c e =
    let f = first-some _ candidates c e in
    let both = f.1 in (f.0, ground arith, str_eq→eq _ _ (ground arith))

-- A candidate that is returned is a candidate of the list, on a route that was not tried, and one that
-- the last failure leaves.
pub next_attempt_candidate-IsNext :
    (candidates : List AttemptCandidate) (attempted : List RouteId) (previous : Option Candidate)
    (action : FailureAction) (c : AttemptCandidate)
    → next_attempt_candidate candidates attempted previous action ≡ some c
    → IsNext candidates attempted previous action c
unfolding next_attempt_candidate
next_attempt_candidate-IsNext candidates attempted none action c e =
    let f = first-some _ candidates c e in
    let facts = f.1 in record { listed = f.0; fresh = ground arith; follows = ground arith }
next_attempt_candidate-IsNext candidates attempted (some p) action c e =
    elim (or_else-some _ _ c e) [
      | inl near ↦
          let f = near_lem attempted action p (is_next_route action) candidates c near in
          IsNext-acceptable candidates attempted p action c f.0 f.1
      | inr far ↦
          let f = first-some (acceptable attempted action p) candidates c far in
          IsNext-acceptable candidates attempted p action c f.0 f.1
    ]

-- No candidate is returned only when the list has none that was not tried and that the last failure
-- leaves.
pub next_attempt_candidate_complete :
    (candidates : List AttemptCandidate) (attempted : List RouteId) (previous : Option Candidate)
    (action : FailureAction) (c : AttemptCandidate)
    → next_attempt_candidate candidates attempted previous action ≡ none
    → ¬ IsNext candidates attempted previous action c
unfolding next_attempt_candidate
next_attempt_candidate_complete candidates attempted none action c e n =
    let f = first-none _ candidates c e n.listed in
    let fr = n.fresh in let fo = n.follows in ground arith
next_attempt_candidate_complete candidates attempted (some p) action c e n =
    let f = first-none (acceptable attempted action p) candidates c (or_else-none _ _ e) n.listed in
    false≢true (sym f ∙ (acceptable_iff attempted action p c).1 (n.fresh, n.follows))

-- Where the failure only rules out the route, the request stays on the model it tried as long as that
-- model has a candidate left.
pub next_attempt_candidate_same_model :
    (candidates : List AttemptCandidate) (attempted : List RouteId) (p : Candidate)
    (c other : AttemptCandidate)
    → next_attempt_candidate candidates attempted (some p) next_route ≡ some c
    → In other candidates
    → contains attempted (route_id other) ≡ false
    → model_id other ≡ p.model.id
    → model_id c ≡ p.model.id
unfolding next_attempt_candidate
next_attempt_candidate_same_model candidates attempted p c other e i fresh same =
    near_first (first (near attempted p) candidates) refl e
  where
    near_first :
        (o : Option AttemptCandidate)
        → first (near attempted p) candidates ≡ o
        → or_else
            (first (near attempted p) candidates)
            (first (acceptable attempted next_route p) candidates)
          ≡ some c
        → model_id c ≡ p.model.id
    near_first none none_left e' = absurd (
        false≢true (
          sym (first-none (near attempted p) candidates other none_left i)
          ∙ near-true attempted p other fresh same))
    near_first (some x) found e' =
        (near_lem attempted next_route p true candidates c (found ∙ ground (arith, found, e'))).2
