-- ===== src/Router/Rank/Ranked.antt =====
-- What the ranking returns.
use mathlib.Core.List.{Permᴰ}
use free_model_router.Router.Filter.{Candidate}
use free_model_router.Router.Rank.{
  TtftLookup, ScoreLookup, valid_rank_score, by_key, rank_less, rank_with_score,
}
use free_model_router.Router.Rank.Sort.{
  IsSorted, sort_stable-perm, sort_stable-IsSorted, sort_stable_unique,
}
use free_model_router.Router.Rank.Order.{rank_less-IsStrictWeak, rank_less_total}
-- A known score is at least as high as another, and a known score goes before an unknown one.
use free_model_router.Prelude.{
  String, ◌≡◌, sym, ◌∙◌, Bool, true, false, not, Option, none, some, List, [], ◌∷◌, arith, All,
}
use free_model_router.Prelude.Int.{ℤ, ltb_ℤ}
use mathlib.Core.Path.{ap₂}

abbrev pub at_least : Option ℤ → Option ℤ → Bool
at_least k none = true
at_least none (some b) = false
at_least (some a) (some b) = not (ltb_ℤ a b)

abbrev pub AllPairs : (Candidate → Candidate → Type 0) → List Candidate → Type 0
AllPairs R [] = Unit
AllPairs R (x ∷ xs) = All (R x) xs × AllPairs R xs

at_least_of_not-by_key :
    (x y : Option ℤ) (rest : Bool)
    → by_key (λ a b. ltb_ℤ b a) y x rest ≡ false
    → at_least x y ≡ true
unfolding by_key
at_least_of_not-by_key x none rest h = ground arith
at_least_of_not-by_key none (some b) rest h = cc
at_least_of_not-by_key (some a) (some b) rest h = ground arith

at_least_of_not-rank_less :
    (ttft : Option TtftLookup) (score : ScoreLookup) (x y : Candidate)
    → rank_less ttft (some score) y x ≡ false
    → at_least (valid_rank_score (score x)) (valid_rank_score (score y)) ≡ true
unfolding rank_less
at_least_of_not-rank_less ttft score x y h =
    at_least_of_not-by_key (valid_rank_score (score x)) (valid_rank_score (score y)) _ h

All-map :
    {P Q : Candidate → Type 0} (f : (c : Candidate) → P c → Q c) (xs : List Candidate)
    → All P xs
    → All Q xs
All-map f [] h = tt
All-map f (x ∷ xs) h = (f x h.0, All-map f xs h.1)

IsSorted-AllPairs :
    (less : Candidate → Candidate → Bool) (R : Candidate → Candidate → Type 0)
    → ((x y : Candidate) → less y x ≡ false → R x y)
    → (xs : List Candidate) → IsSorted less xs
    → AllPairs R xs
IsSorted-AllPairs less R f [] s = tt
IsSorted-AllPairs less R f (x ∷ xs) s = (All-map (f x) xs s.0, IsSorted-AllPairs less R f xs s.1)

-- The ranking returns the candidates that it was given, each as often, in an order in which none
-- stands behind one that the comparison puts after it.
pub rank_with_score_sorts :
    (cs : List Candidate) (ttft : Option TtftLookup) (score : Option ScoreLookup)
    → Permᴰ (rank_with_score cs ttft score) cs
      × IsSorted (rank_less ttft score) (rank_with_score cs ttft score)
unfolding rank_with_score
rank_with_score_sorts cs ttft score = (
  sort_stable-perm (rank_less ttft score) cs,
  sort_stable-IsSorted (rank_less ttft score) (rank_less-IsStrictWeak ttft score) cs,
)

-- With a score, whatever the latencies: of two ranked candidates the one in front has at least the
-- score of the other, and one whose score is missing, infinite or not a number never stands in front
-- of one with a usable score.
pub rank_with_score_descends :
    (cs : List Candidate) (ttft : Option TtftLookup) (score : ScoreLookup)
    → AllPairs
        (λ x y. at_least (valid_rank_score (score x)) (valid_rank_score (score y)) ≡ true)
        (rank_with_score cs ttft (some score))
rank_with_score_descends cs ttft score =
    IsSorted-AllPairs (rank_less ttft (some score)) _ (at_least_of_not-rank_less ttft score) _
      (rank_with_score_sorts cs ttft (some score)).1

-- The ranking does not depend on the order in which the candidates come: any rearrangement of a list
-- in which the model id and the route id determine the candidate is ranked alike.
pub rank_with_score_deterministic :
    (table : String → String → Candidate) (xs ys : List Candidate) (ttft : Option TtftLookup)
    (score : Option ScoreLookup)
    → Permᴰ xs ys
    → All (λ c. c ≡ table c.model.id c.route.id) xs
    → rank_with_score xs ttft score ≡ rank_with_score ys ttft score
unfolding rank_with_score
rank_with_score_deterministic table xs ys ttft score d keyed =
    sort_stable_unique (rank_less ttft score) (rank_less-IsStrictWeak ttft score)
      (λ c. c ≡ table c.model.id c.route.id)
      (λ x y p q h k.
        let same = rank_less_total ttft score x y h k in p ∙ ap₂ table same.0 same.1 ∙ sym q)
      d keyed
