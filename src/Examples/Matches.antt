-- ===== src/Examples/Matches.antt =====
-- Benchmark records that match a provider model.
use free_model_router.Model.Identity.{parse}
use free_model_router.Catalog.Pool.{contains}
use free_model_router.Prelude.Text.{str_discrete}
use free_model_router.Matcher.{TextOps, Matcher}
use free_model_router.Matcher.Choice.{match_unique}
use free_model_router.Matcher.Unique.{IsDecided, match_unique-IsDecided}
use free_model_router.Matcher.Pick.{match_best}
use free_model_router.Matcher.Agree.{match_best-match_unique}
use free_model_router.Scoring.{BenchmarkModel}
use free_model_router.Examples.{model_of}
use Prim.Native.Char.{Char, code}
use free_model_router.Prelude.{
  ℕ, String, ◌≡◌, refl, Bool, false, not, List, [], ◌∷◌, arith, ltb, ◌==◌,
}

abbrev kept_byte : Char → Bool
kept_byte c = ltb b'/' (code c)

-- Names without spaces, capitals, dates and deployments.
abbrev plain : TextOps
plain = record {
  trim_space = λ s. s;
  to_lower = λ s. s;
  is_letter = kept_byte;
  is_number = λ c. false;
  drop_date = λ s. s;
  drop_deployment = λ s. s;
}

abbrev percent : Matcher ℕ
percent = record { exact_confidence = 100; family_confidence = 80; variant_confidence = 60 }

abbrev benchmark_of : String → String → BenchmarkModel
benchmark_of id name = record {
  source_model_id = id;
  canonical_model_key = "";
  name = name;
  aliases = [];
}

abbrev percent_differ : ℕ → ℕ → Bool
percent_differ x y = not (x == y)

percent_irrefl : (x : ℕ) → ltb x x ≡ false
percent_irrefl x = ground arith

abbrev catalog_of : List BenchmarkModel
catalog_of = benchmark_of "1" "other" ∷ benchmark_of "2" "pickle" ∷ []

match_unique-IsDecided_example :
    IsDecided plain 0 100 ltb percent
      (model_of "oc/pickle")
      catalog_of
      (match_unique plain 0 100 ltb percent (model_of "oc/pickle") catalog_of).0
      (match_unique plain 0 100 ltb percent (model_of "oc/pickle") catalog_of).1
match_unique-IsDecided_example =
    match_unique-IsDecided plain 0 100 ltb percent (model_of "oc/pickle") catalog_of

match_best-match_unique_example :
    match_best plain 0 100 ltb percent_differ percent (model_of "oc/pickle") catalog_of
    ≡ (match_unique plain 0 100 ltb percent (model_of "oc/pickle") catalog_of).0
unfolding match_unique str_discrete contains parse
match_best-match_unique_example =
    match_best-match_unique plain 0 100 ltb percent_differ percent_irrefl percent
      (model_of "oc/pickle") catalog_of refl
