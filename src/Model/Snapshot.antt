-- ===== src/Model/Snapshot.antt =====
-- internal/model/types.go: catalog snapshots.
use free_model_router.Prelude.{
  ℕ, Bool, true, false, Option, none, some, Result, ok, err, [], if◌then◌else◌,
}
use free_model_router.Prelude.Int.{ℤ, pos, ltb_ℤ}
use free_model_router.Prelude.Dict.{Dict}
use free_model_router.Model.Route.{ProviderModel}

-- `Models` may be a nil map, `none`. A time is a count of nanoseconds, with Go's zero time as 0.
pub record CatalogSnapshot : Type 0 where
  pub revision : ℤ
  pub created_at : ℕ
  pub models : Option (Dict ProviderModel)

-- A nil map reads as empty.
abbrev pub entries : Option (Dict ProviderModel) → Dict ProviderModel
entries none = []
entries (some m) = m

abbrev has_map : Option (Dict ProviderModel) → Bool
has_map none = false
has_map (some m) = true

-- `(*CatalogSnapshot).Validate`
unfoldable pub validate : CatalogSnapshot → Result (Unit {0})
validate s =
    if ltb_ℤ s.revision (pos 0)
    then err "negative snapshot revision"
    else if has_map s.models
    then ok tt
    else err "snapshot models map must not be nil"
