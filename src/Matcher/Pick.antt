-- ===== src/Matcher/Pick.antt =====
-- internal/matcher/matcher.go: `Match`, which takes a best record even where it is not unique, against
-- `MatchUnique`.
use free_model_router.Matcher.{
  TextOps, Matcher, MatchMethod, match_none, match_exact, match_family, match_variant,
  BenchmarkBinding,
}
use free_model_router.Matcher.Choice.{match_rank, binding_of, no_binding}
use free_model_router.Scoring.{BenchmarkModel}
use free_model_router.Model.Route.{ProviderModel}
use free_model_router.Prelude.Text.{str_lt, str_lt_asymm}
use free_model_router.Router.Rank.Sort.{
  sort_stable, IsStrictWeak, IsSorted, sort_stable-IsSorted, sort_stable-perm,
}
use free_model_router.Router.Rank.Order.{str_lt_weak}
use mathlib.Core.List.{Permᴰ}
use free_model_router.Prelude.Dict.{Dict, assign}
use free_model_router.Prelude.{
  String, ℕ, Bool, true, false, ◌||◌, List, [], ◌∷◌, ltb, ◌==◌, if◌then◌else◌,
}

abbrev pub is_match_none : MatchMethod → Bool
is_match_none match_none = true
is_match_none match_exact = false
is_match_none match_family = false
is_match_none match_variant = false

module _ {F : Type 0} (t : TextOps) (zero_f one_f : F) (less differs : F → F → Bool) where
  -- `betterTie`
  unfoldable pub better_tie : BenchmarkBinding F → BenchmarkBinding F → Bool
  better_tie candidate current =
      if is_match_none current.match_method
      then true
      else if differs candidate.confidence current.confidence
      then less current.confidence candidate.confidence
      else str_lt candidate.source_model_id current.source_model_id

  -- The variables of the loop of `Match`; a rank of 0 stands for -1.
  pub record Top : Type 0 where
    pub binding : BenchmarkBinding F
    pub rank : ℕ

  -- the body of the loop of `Match`
  unfoldable pub weigh : Matcher F → ProviderModel → Top → BenchmarkModel → Top
  unfolding better_tie
  weigh m pm s b =
      let r = match_rank t zero_f one_f less pm b in
      let binding = binding_of t zero_f one_f less m pm b in
      if (r == 0) || ltb r s.rank
      then s
      else if ltb s.rank r || better_tie binding s.binding
      then record { binding = binding; rank = r }
      else s

  unfoldable pub weigh_all : Matcher F → ProviderModel → Top → List BenchmarkModel → Top
  unfolding weigh
  weigh_all m pm s [] = s
  weigh_all m pm s (b ∷ bs) = weigh_all m pm (weigh m pm s b) bs

  -- `Match`
  unfoldable pub match_best : Matcher F → ProviderModel → List BenchmarkModel → BenchmarkBinding F
  unfolding weigh_all
  match_best m pm bs =
      (weigh_all m pm (record { binding = no_binding t zero_f one_f less; rank = 0 }) bs).binding

  -- `MatchAll`, of the matcher that `New` gives
  unfoldable pub match_all :
      Matcher F
      → List ProviderModel
      → List BenchmarkModel
      → Dict (BenchmarkBinding F)
      → Dict (BenchmarkBinding F)
  unfolding match_best
  match_all m [] bs result = result
  match_all m (pm ∷ pms) bs result = match_all m pms bs (assign pm.id (match_best m pm bs) result)

abbrev pub key_less : {A : Type 0} → String × A → String × A → Bool
key_less x y = str_lt x.0 y.0

-- `StableBindings`; the keys of a map are distinct, so that any sort gives this one.
unfoldable pub stable_bindings :
    {F : Type 0} → Dict (BenchmarkBinding F) → List (String × BenchmarkBinding F)
unfolding sort_stable
stable_bindings bindings = sort_stable key_less bindings

key_less-IsStrictWeak : {A : Type 0} → IsStrictWeak (key_less {A = A})
key_less-IsStrictWeak = record {
  asymm = λ x y. str_lt_asymm x.0 y.0;
  weak = λ x y z. str_lt_weak x.0 y.0 z.0;
}

-- The bindings come in the order of their ids, each of them once.
stable_bindings-IsSorted :
    {F : Type 0} (bindings : Dict (BenchmarkBinding F))
    → IsSorted key_less (stable_bindings bindings) × Permᴰ (stable_bindings bindings) bindings
unfolding stable_bindings
stable_bindings-IsSorted bindings = (
  sort_stable-IsSorted key_less key_less-IsStrictWeak bindings,
  sort_stable-perm key_less bindings,
)
