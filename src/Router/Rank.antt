-- ===== src/Router/Rank.antt =====
-- `Rank` and `RankWithScore` of internal/router/filter.go: eligible candidates in order of score,
-- latency and identity.
pub mod Sort
pub mod Order
pub mod Ranked
use free_model_router.Router.Filter.{Candidate}
use Sort.{sort_stable}
use free_model_router.Prelude.{
  String, Bool, true, false, not, Option, none, some, List, if◌then◌else◌,
}
use free_model_router.Prelude.Int.{ℤ, ltb_ℤ, pos, eq_ℤ}
use free_model_router.Prelude.Text.{str_eq, str_lt}

-- A `float64`, as far as it is compared: the k-th finite number above zero is `finite (pos k)`, those
-- below are negative, and both zeros are `finite (pos 0)`.
pub data Float : Type 0 where
  finite : ℤ → Float
  infinite nan : Float

-- `TTFTLookup` and `ScoreLookup` return a number and whether there is one.
abbrev pub TtftLookup : Type 0
TtftLookup = String → Float × Bool

abbrev pub ScoreLookup : Type 0
ScoreLookup = Candidate → Float × Bool

abbrev finite_or_none : Float → Option ℤ
finite_or_none (finite k) = some k
finite_or_none infinite = none
finite_or_none nan = none

abbrev pub is_negative : ℤ → Bool
is_negative k = ltb_ℤ k (pos 0)

-- `validRankScore`: `none` is the pair `(0, false)`.
unfoldable pub valid_rank_score : Float × Bool → Option ℤ
valid_rank_score (f, known) = if known then finite_or_none f else none

abbrev non_negative : Option ℤ → Option ℤ
non_negative none = none
non_negative (some k) = if is_negative k then none else some k

-- `validTTFT`
unfoldable pub valid_ttft : Float × Bool → Option ℤ
valid_ttft (f, known) = if known then non_negative (finite_or_none f) else none

-- `if leftOK != rightOK { return leftOK }; if leftOK && left != right { return before(left, right) }`
-- and then the rest of the comparison.
unfoldable pub by_key : (ℤ → ℤ → Bool) → Option ℤ → Option ℤ → Bool → Bool
by_key before (some l) (some r) rest = if not (eq_ℤ l r) then before l r else rest
by_key before (some l) none rest = true
by_key before none (some r) rest = false
by_key before none none rest = rest

abbrev pub ttft_of : Option TtftLookup → Candidate → Option ℤ
ttft_of none c = none
ttft_of (some ttft) c = valid_ttft (ttft c.route.id)

-- the two comparisons of identities at the end of `rankByTTFT`
unfoldable pub by_identity : Candidate → Candidate → Bool
by_identity l r =
    if str_eq l.model.id r.model.id
    then str_lt l.route.id r.route.id
    else str_lt l.model.id r.model.id

-- `rankByTTFT`
unfoldable pub rank_by_ttft : Option TtftLookup → Candidate → Candidate → Bool
rank_by_ttft ttft l r = by_key ltb_ℤ (ttft_of ttft l) (ttft_of ttft r) (by_identity l r)

-- the comparison that `RankWithScore` sorts by
unfoldable pub rank_less : Option TtftLookup → Option ScoreLookup → Candidate → Candidate → Bool
rank_less ttft none l r = rank_by_ttft ttft l r
rank_less ttft (some score) l r =
    by_key (λ a b. ltb_ℤ b a) (valid_rank_score (score l)) (valid_rank_score (score r))
      (rank_by_ttft ttft l r)

-- `RankWithScore`
unfoldable pub rank_with_score :
    List Candidate → Option TtftLookup → Option ScoreLookup → List Candidate
rank_with_score candidates ttft score = sort_stable (rank_less ttft score) candidates

-- `Rank`
unfoldable pub rank : List Candidate → Option TtftLookup → List Candidate
unfolding rank_with_score
rank candidates ttft = rank_with_score candidates ttft none
