-- ===== src/Gateway/Candidates/Resolved.antt =====
-- What holds of every candidate of a request.
use free_model_router.Prelude.{
  String, ◌≡◌, refl, sym, ap, ◌∙◌, ◌⊎◌, inl, inr, true, false, not, ◌&&◌, ◌||◌, some, List, [], ◌∷◌,
  ◌++◌, arith, if◌then◌else◌, Bool-cases, In, In-append_cases,
}
use mathlib.Core.List.{Permᴰ}
use free_model_router.Gateway.Candidates.{
  rank_candidates, unseen, Routing, has_route, is_explicit, eligible, explicit_input, fallbacks,
  ranked_unique, normal, unknown_candidates, resolve_attempt_candidates, is_unknown, as_normal,
  and_pool, requested, has_model, resolve_requested, is_absent, is_none,
}
use free_model_router.Router.Filter.{FilterInput, Candidate}
use free_model_router.Router.Rank.Ranked.{rank_with_score_sorts}
use free_model_router.Gateway.Attempts.{AttemptCandidate, model_id, route_id}
use free_model_router.Model.Route.{effective_access}
use mathlib.Core.Path.{subst}
use mathlib.Core.Bool.{false≢true}

module _ {A : Type 0} where
  In-Permᴰ : (a : A) {xs ys : List A} → Permᴰ xs ys → In a xs → In a ys
  In-Permᴰ a Permᴰ.nil i = i
  In-Permᴰ a (Permᴰ.cons e d) (inl p) = inl (p ∙ e)
  In-Permᴰ a (Permᴰ.cons e d) (inr i) = inr (In-Permᴰ a d i)
  In-Permᴰ a (Permᴰ.swap e f) (inl p) = inr (inl (p ∙ e))
  In-Permᴰ a (Permᴰ.swap e f) (inr (inl p)) = inl (p ∙ f)
  In-Permᴰ a (Permᴰ.swap e f) (inr (inr i)) = inr (inr i)
  In-Permᴰ a (Permᴰ.trans d d') i = In-Permᴰ a d' (In-Permᴰ a d i)

In-rank_candidates :
    (g : Routing) (c : Candidate) (cs : List Candidate) → In c (rank_candidates g cs) → In c cs
unfolding rank_candidates
In-rank_candidates g c cs i =
    In-Permᴰ c (rank_with_score_sorts cs (some g.fresh_ttft) (g.score_of cs)).0 i

In-unseen :
    (c : Candidate) (seen cs : List Candidate)
    → In c (unseen seen cs)
    → In c cs × (has_route seen c.route.id ≡ false)
unfolding unseen has_route
In-unseen c seen [] i = absurd i
In-unseen c seen (x ∷ cs) i = elim (Bool-cases (has_route seen x.route.id)) [
  | inl old ↦ let r = In-unseen c seen cs (rw (old, unseen) at i) in (inr r.0, r.1)
  | inr new ↦ elim (rw (new, unseen) at i) [
    | inl e ↦ (inl e, ap (λ y. has_route seen y.route.id) e ∙ new)
    | inr later ↦
        let r = In-unseen c (x ∷ seen) cs later in let apart = r.1 in (inr r.0, ground arith)
  ]
]

-- The inputs that a request filters: where it names a model, that model and then the pool.
abbrev pub inputs : FilterInput → String → List FilterInput
inputs input m =
    if is_explicit m then explicit_input input m ∷ explicit_input input "" ∷ [] else input ∷ []

abbrev pub IsEligibleFor : FilterInput → String → Candidate → Type 0
IsEligibleFor input m c = (i : FilterInput) × In i (inputs input m) × In c (eligible i)

-- A normal candidate is eligible. A fallback-only one has unknown access, is eligible when unknown
-- access is allowed, its model is that of a normal candidate, and its route is none of theirs.
abbrev pub IsResolved : Routing → String → List Candidate → AttemptCandidate → Type 0
IsResolved g m ns a =
    ((a.fallback_only ≡ false) × In a.candidate ns × IsEligibleFor g.base m a.candidate)
    ⊎ ((a.fallback_only ≡ true)
        × (is_unknown (effective_access a.candidate.route) ≡ true)
        × (has_model ns (model_id a) ≡ true)
        × (has_route ns (route_id a) ≡ false)
        × IsEligibleFor (record g.base { allow_unknown = true }) m a.candidate)

In-as_normal :
    (a : AttemptCandidate) (cs : List Candidate)
    → In a (as_normal cs)
    → (a.fallback_only ≡ false) × In a.candidate cs
In-as_normal a [] i = absurd i
In-as_normal a (c ∷ cs) (inl e) = (ap (λ x. x.fallback_only) e, inl (ap (λ x. x.candidate) e))
In-as_normal a (c ∷ cs) (inr i) = let r = In-as_normal a cs i in (r.0, inr r.1)

In-fallbacks :
    (a : AttemptCandidate) (ns cs : List Candidate)
    → In a (fallbacks ns cs)
    → (a.fallback_only ≡ true)
      × (is_unknown (effective_access a.candidate.route) ≡ true)
      × (has_model ns (model_id a) ≡ true)
      × (has_route ns (route_id a) ≡ false)
      × In a.candidate cs
unfolding fallbacks
In-fallbacks a ns [] i = absurd i
In-fallbacks a ns (c ∷ cs) i =
    elim (Bool-cases (
      has_route ns c.route.id
      || not (has_model ns c.model.id)
      || not (is_unknown (effective_access c.route)))) [
        | inl skipped ↦
            let r = In-fallbacks a ns cs (rw (skipped, fallbacks) at i) in
            (r.0, r.1, r.2, r.3, inr r.4)
        | inr kept ↦ elim (rw (kept, fallbacks) at i) [
          | inl e ↦
              subst
                (λ x.
                  (x.fallback_only ≡ true)
                  × (is_unknown (effective_access x.candidate.route) ≡ true)
                  × (has_model ns (model_id x) ≡ true)
                  × (has_route ns (route_id x) ≡ false)
                  × In x.candidate (c ∷ cs))
                (sym e) (refl, ground arith, ground arith, ground arith, inl refl)
          | inr later ↦ let r = In-fallbacks a ns cs later in (r.0, r.1, r.2, r.3, inr r.4)
        ]
      ]

In-and_pool :
    (g : Routing) (c : Candidate) (firsts : List Candidate)
    → In c (and_pool g firsts)
    → In c firsts ⊎ In c (eligible (explicit_input g.base ""))
unfolding ranked_unique
In-and_pool g c [] i = absurd i
In-and_pool g c (x ∷ xs) i = elim (In-append_cases c (x ∷ xs) _ i) [
  | inl l ↦ inl l
  | inr l ↦ inr (In-rank_candidates g c _ (In-unseen c (x ∷ xs) _ l).0)
]

normal-IsEligibleFor :
    (g : Routing) (m : String) (c : Candidate) → In c (normal g m) → IsEligibleFor g.base m c
unfolding normal
normal-IsEligibleFor g m c i = elim (Bool-cases (is_explicit m)) [
  | inr auto ↦ rw (auto) (g.base, inl refl, In-rank_candidates g c _ (rw (auto, normal) at i))
  | inl named ↦
      elim (In-and_pool g c (rank_candidates g (eligible (explicit_input g.base m)))
        (rw (named, normal) at i)) [
          | inl own ↦ rw (named) (explicit_input g.base m, inl refl, In-rank_candidates g c _ own)
          | inr pool ↦ rw (named) (explicit_input g.base "", inr (inl refl), pool)
        ]
]

unknown_candidates-IsEligibleFor :
    (g : Routing) (m : String) (c : Candidate)
    → In c (unknown_candidates g m)
    → IsEligibleFor (record g.base { allow_unknown = true }) m c
unfolding unknown_candidates
unknown_candidates-IsEligibleFor g m c i = elim (Bool-cases (is_explicit m)) [
  | inr auto ↦ rw (auto) (
    record g.base { allow_unknown = true },
    inl refl,
    In-rank_candidates g c _ (rw (auto, unknown_candidates) at i),
  )
  | inl named ↦
      elim (In-append_cases c (eligible (explicit_input (record g.base { allow_unknown = true }) m))
        _ (In-rank_candidates g c _ (rw (named, unknown_candidates) at i))) [
          | inl own ↦
              rw (named) (explicit_input (record g.base { allow_unknown = true }) m, inl refl, own)
          | inr pool ↦
              rw (named)
                (explicit_input (record g.base { allow_unknown = true }) "", inr (inl refl), pool)
        ]
]

resolve_requested-IsResolved :
    (g : Routing) (m : String) (a : AttemptCandidate)
    → In a (resolve_requested g m)
    → IsResolved g m (normal g m) a
resolve_requested-IsResolved g m a i = elim (Bool-cases (is_explicit m && is_none (normal g m))) [
  | inl nobody ↦ absurd (rw (nobody) at i)
  | inr somebody ↦ elim (In-append_cases a (as_normal (normal g m)) _ (rw (somebody) at i)) [
    | inl own ↦
        let r = In-as_normal a (normal g m) own in
        inl (r.0, r.1, normal-IsEligibleFor g m a.candidate r.1)
    | inr spare ↦
        let r = In-fallbacks a (normal g m) (unknown_candidates g m) spare in
        inr (r.0, r.1, r.2, r.3, unknown_candidates-IsEligibleFor g m a.candidate r.4)
  ]
]

-- Whatever the latencies and the scores are, each candidate of a request is either a normal one, which
-- Filter finds eligible for the model that the request names or for the pool; or a fallback-only one,
-- which has unknown access, would be eligible if unknown access were allowed, belongs to a model that
-- has a normal candidate, and is on none of the normal candidates' routes.
pub resolve_attempt_candidates-IsResolved :
    (g : Routing) (m : String) (a : AttemptCandidate)
    → In a (resolve_attempt_candidates g m)
    → IsResolved g (requested g m) (normal g (requested g m)) a
unfolding resolve_attempt_candidates
resolve_attempt_candidates-IsResolved g m a i = elim (Bool-cases (is_absent g.base.catalog)) [
  | inl absent ↦ absurd (rw (absent, resolve_attempt_candidates) at i)
  | inr present ↦
      resolve_requested-IsResolved g (requested g m) a
        (rw (present, resolve_attempt_candidates) at i)
]

nil-ne-cons : {a : AttemptCandidate} {l : List AttemptCandidate} → ¬ ([] ≡ a ∷ l)
nil-ne-cons e = ground (arith, e)

abbrev head_or : AttemptCandidate → List AttemptCandidate → AttemptCandidate
head_or default [] = default
head_or default (x ∷ xs) = x

head-and_pool :
    (g : Routing) (firsts : List Candidate) (tail rest : List AttemptCandidate)
    (a : AttemptCandidate)
    → as_normal (and_pool g firsts) ++ tail ≡ a ∷ rest
    → is_none (and_pool g firsts) ≡ false
    → (a.fallback_only ≡ false) × In a.candidate firsts
head-and_pool g [] tail rest a e h = absurd (false≢true (sym h))
head-and_pool g (x ∷ xs) tail rest a e h =
    let p = ap (head_or a) e in
    (sym (ap (λ y. y.fallback_only) p), inl (sym (ap (λ y. y.candidate) p)))

head-resolve_requested :
    (g : Routing) (m : String) (a : AttemptCandidate) (rest : List AttemptCandidate)
    → is_explicit m ≡ true
    → resolve_requested g m ≡ a ∷ rest
    → (a.fallback_only ≡ false) × In a.candidate (eligible (explicit_input g.base m))
unfolding normal
head-resolve_requested g m a rest named e =
    elim (Bool-cases
      (is_none (and_pool g (rank_candidates g (eligible (explicit_input g.base m)))))) [
        | inl nobody ↦ absurd (nil-ne-cons (rw (named, normal, nobody) at e))
        | inr somebody ↦
            let r =
              head-and_pool g (rank_candidates g (eligible (explicit_input g.base m))) _ rest a
                (rw (named, normal, somebody) at e) somebody in
            (r.0, In-rank_candidates g a.candidate _ r.1)
      ]

-- A request that names a model, by itself or through the pin, tries that model first: where it has any
-- candidate, the first one is a normal candidate that Filter finds eligible for the named model alone.
pub resolve_explicit_first :
    (g : Routing) (m : String) (a : AttemptCandidate) (rest : List AttemptCandidate)
    → is_explicit (requested g m) ≡ true
    → resolve_attempt_candidates g m ≡ a ∷ rest
    → (a.fallback_only ≡ false) × In a.candidate (eligible (explicit_input g.base (requested g m)))
unfolding resolve_attempt_candidates
resolve_explicit_first g m a rest named e = elim (Bool-cases (is_absent g.base.catalog)) [
  | inl absent ↦ absurd (nil-ne-cons (rw (absent, resolve_attempt_candidates) at e))
  | inr present ↦
      head-resolve_requested g (requested g m) a rest named
        (rw (present, resolve_attempt_candidates) at e)
]
