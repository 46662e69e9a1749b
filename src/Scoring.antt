-- ===== src/Scoring.antt =====
-- internal/scoring/cache.go: the snapshots of benchmark data. `strings.TrimSpace` and the test that a
-- float is finite are parameters; times are nanoseconds with Go's zero time as 0.
pub mod Cache
pub mod Saved
pub mod Kept
use free_model_router.Prelude.Dict.{Dict}
use free_model_router.Prelude.Int.{ℤ, is_positive, to_ℕ}
use free_model_router.Catalog.Pool.{contains}
use free_model_router.Prelude.{
  ℕ, zero, suc, ◌+◌, ◌-◌, ◌*◌, ◌/◌, ◌%◌, ◌^◌, ◌≤◌, ◌<◌, String, ◌≡◌, refl, sym, ap, ◌∙◌, ◌≢◌, ◌↔◌,
  ◌⊎◌, inl, inr, Bool, true, false, not, ◌&&◌, ◌||◌, Option, none, some, List, [], ◌∷◌, ◌++◌, arith,
  ltb, leb, ◌==◌, if◌then◌else◌, Bool-cases, Option-cases, &&_iff, bool_ext, Result, ok, err,
  Result-cases, length, All, length-append, All-append, In, In-append_left, In-append_right,
  In-append_cases, All-In,
}
use free_model_router.Prelude.Text.{str_eq}

-- `Metrics`, over the floats
pub record Metrics (F : Type 0) : Type 0 where
  pub capability : Option F
  pub availability : Option F
  pub intelligence : Option F

-- `BenchmarkModel` of internal/matcher/matcher.go
pub record BenchmarkModel : Type 0 where
  pub source_model_id : String
  pub canonical_model_key : String
  pub name : String
  pub aliases : List String

-- `Provenance`
pub record Provenance : Type 0 where
  pub revision : String
  pub upstream_version : String
  pub upstream_updated_at : ℕ
  pub policy_version : String

-- `Snapshot`; a nil map and a nil pointer are `none`.
pub record Snapshot (F : Type 0) : Type 0 where
  pub version : String
  pub source : String
  pub retrieved_at : ℕ
  pub benchmarks : List BenchmarkModel
  pub models : Option (Dict (Metrics F))
  pub provenance : Option Provenance

-- `emptySnapshot`
abbrev pub empty_snapshot : {F : Type 0} → Snapshot F
empty_snapshot = record {
  version = "";
  source = "";
  retrieved_at = 0;
  benchmarks = [];
  models = some [];
  provenance = none;
}

-- `IsStale`
unfoldable pub is_stale : {F : Type 0} → Snapshot F → ℕ → ℤ → Bool
is_stale s now max_age =
    if s.retrieved_at == 0
    then true
    else if not (is_positive max_age) || ltb now s.retrieved_at
    then false
    else ltb (s.retrieved_at + to_ℕ max_age) now

module _ {F : Type 0} (trim_space : String → String) (is_finite : F → Bool) where
  -- the loop of `Validate` over the benchmarks, with the ids seen before
  unfoldable pub validate_benchmarks : List String → List BenchmarkModel → Result (Unit {0})
  validate_benchmarks seen [] = ok tt
  validate_benchmarks seen (b ∷ rest) =
      let id = trim_space b.source_model_id in
      let later = validate_benchmarks (id ∷ seen) rest in
      if str_eq id ""
      then err "snapshot benchmark source model id must not be empty"
      else if contains seen id
      then err "duplicate snapshot benchmark source model id"
      else later

  abbrev pub is_usable : Option F → Bool
  is_usable none = true
  is_usable (some v) = is_finite v

  -- the loop of `Validate` over the models
  unfoldable pub validate_models : Dict (Metrics F) → Result (Unit {0})
  validate_models [] = ok tt
  validate_models ((id, m) ∷ rest) =
      let later = validate_models rest in
      if str_eq (trim_space id) ""
      then err "snapshot model id must not be empty"
      else if is_usable m.capability && is_usable m.availability && is_usable m.intelligence
      then later
      else err "snapshot metric is not finite"

  abbrev pub validate_map : Option (Dict (Metrics F)) → List BenchmarkModel → Result (Unit {0})
  validate_map none benchmarks = err "snapshot models map must not be nil"
  validate_map (some m) benchmarks = elim (validate_benchmarks [] benchmarks) [
    | err e ↦ err e
    | ok u ↦ validate_models m
  ]

  -- `Validate`
  unfoldable pub validate : Snapshot F → Result (Unit {0})
  unfolding validate_benchmarks validate_models
  validate s =
      if str_eq (trim_space s.version) ""
      then err "snapshot version must not be empty"
      else if str_eq (trim_space s.source) ""
      then err "snapshot source must not be empty"
      else if s.retrieved_at == 0
      then err "snapshot retrievedAt must not be zero"
      else validate_map s.models s.benchmarks
