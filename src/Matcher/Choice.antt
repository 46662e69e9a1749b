-- ===== src/Matcher/Choice.antt =====
-- internal/matcher/matcher.go: `MatchUnique`, the loop over the benchmark records.
use free_model_router.Matcher.{
  MatchMethod, BenchmarkBinding, Matcher, TextOps, rank_of, match_method, binding_key, match_none,
  match_exact, match_family, match_variant,
}
use free_model_router.Prelude.Text.{str_eq}
use free_model_router.Model.Route.{ProviderModel}
use free_model_router.Scoring.{BenchmarkModel}
use free_model_router.Prelude.{
  ℕ, Bool, true, false, not, ◌&&◌, ◌||◌, List, [], ◌∷◌, ltb, ◌==◌, if◌then◌else◌,
}

module _ (t : TextOps) where
  module _ {F : Type 0} (zero_f one_f : F) (less : F → F → Bool) where
    abbrev pub clipped : F → F
    clipped v = if less v zero_f then zero_f else if less one_f v then one_f else v

    -- `confidence`
    unfoldable pub confidence_of : Matcher F → MatchMethod → F
    confidence_of m match_exact = clipped m.exact_confidence
    confidence_of m match_family = clipped m.family_confidence
    confidence_of m match_variant = clipped m.variant_confidence
    confidence_of m match_none = clipped zero_f

    unfoldable pub binding_of : Matcher F → ProviderModel → BenchmarkModel → BenchmarkBinding F
    unfolding binding_key match_method confidence_of
    binding_of m pm b = record {
      canonical_model_key = binding_key t pm b;
      source_model_id = b.source_model_id;
      confidence = confidence_of m (match_method t pm b);
      match_method = match_method t pm b;
    }

    abbrev pub no_binding : BenchmarkBinding F
    no_binding = record {
      canonical_model_key = "";
      source_model_id = "";
      confidence = zero_f;
      match_method = match_none;
    }

    -- The variables of the loop of `MatchUnique`; a rank of 0 stands for -1.
    pub record Best : Type 0 where
      pub binding : BenchmarkBinding F
      pub rank : ℕ
      pub ambiguous : Bool

    -- The rank that the loop gives a record: those without an id are passed over.
    unfoldable pub match_rank : ProviderModel → BenchmarkModel → ℕ
    unfolding match_method
    match_rank pm b =
        if str_eq (t.trim_space b.source_model_id) "" then 0 else rank_of (match_method t pm b)

    -- the body of the loop of `MatchUnique`
    unfoldable pub consider : Matcher F → ProviderModel → Best → BenchmarkModel → Best
    unfolding match_rank binding_of
    consider m pm s b =
        if (match_rank pm b == 0) || ltb (match_rank pm b) s.rank
        then s
        else if ltb s.rank (match_rank pm b)
        then record { binding = binding_of m pm b; rank = match_rank pm b; ambiguous = false }
        else if not (str_eq b.source_model_id s.binding.source_model_id)
        then record s { ambiguous = true }
        else s

    unfoldable pub consider_all : Matcher F → ProviderModel → Best → List BenchmarkModel → Best
    unfolding consider
    consider_all m pm s [] = s
    consider_all m pm s (b ∷ bs) = consider_all m pm (consider m pm s b) bs

    -- `MatchUnique`
    unfoldable pub match_unique :
        Matcher F → ProviderModel → List BenchmarkModel → BenchmarkBinding F × Bool
    unfolding consider_all
    match_unique m pm bs =
        let s =
          consider_all m pm (record { binding = no_binding; rank = 0; ambiguous = false }) bs in
        (s.binding, not (s.rank == 0) && not s.ambiguous)
