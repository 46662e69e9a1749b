-- ===== src/Providers/Catalog/Discover.antt =====
-- internal/providers/*/provider.go: `DiscoverModels`, the exchange that gives the entries.
use free_model_router.Providers.Catalog.{
  CatalogEntry, Coding, entry_model, canonicalize, canonicalize_org, add_entries, provider_failure,
}
use free_model_router.Gateway.Errors.{Error, plain, wrapped, is_nil, is_deadline}
use free_model_router.Model.Failure.{FailureClass, network, timeout, protocol, server_error}
use free_model_router.Model.Route.{ProviderModel}
use free_model_router.Model.Snapshot.{CatalogSnapshot}
use free_model_router.Prelude.Dict.{Dict}
use free_model_router.Prelude.Int.{pos}
use free_model_router.Prelude.{
  ℕ, String, Bool, true, not, ◌||◌, some, List, [], ◌∷◌, leb, ◌==◌, if◌then◌else◌,
}
use free_model_router.Providers.Wire.{Outcome, returned, failed}
use free_model_router.Providers.Http.{canceled_failure}
use free_model_router.Providers.Opencode.{is_verified_anonymous_free}

-- The loop that deletes what is not on the list of free models.
unfoldable pub only_verified : Dict ProviderModel → Dict ProviderModel
unfolding is_verified_anonymous_free
only_verified [] = []
only_verified ((id, pm) ∷ models) =
    let rest = only_verified models in
    if not (is_verified_anonymous_free pm.upstream_id) then rest else (id, pm) ∷ rest

-- What a call of `DiscoverModels` meets.
pub record CatalogExchange : Type 0 where
  pub build_error : Error
  pub do_error : Error
  pub ctx_err : Error
  pub deadline : Bool
  pub status : ℕ
  pub read_error : Error
  pub parsed : Outcome (List CatalogEntry)
  pub now : ℕ

abbrev pub snapshot_of : ℕ → Outcome (Dict ProviderModel) → Outcome CatalogSnapshot
snapshot_of now (failed e) = failed e
snapshot_of now (returned models) =
    returned (record { revision = pos 0; created_at = now; models = some models })

module _ (k : Coding) where
  -- The error of a call or a read in opencode.
  unfoldable pub catalog_failure : CatalogExchange → FailureClass → Error → Error
  catalog_failure x class e =
      if not (is_nil x.ctx_err)
      then canceled_failure x.ctx_err
      else if x.deadline || is_deadline e
      then provider_failure k timeout e
      else provider_failure k class e

  -- What all the clients do with an answer; `on_read` classifies the error of a read.
  unfoldable pub read_catalog :
      (Error → Error)
      → CatalogExchange
      → (List CatalogEntry → Outcome (Dict ProviderModel))
      → Outcome CatalogSnapshot
  read_catalog on_read x collect =
      if leb 500 x.status
      then failed (provider_failure k server_error (plain "catalog endpoint returned a status"))
      else if not (x.status == 200)
      then failed (provider_failure k protocol (plain "catalog endpoint returned a status"))
      else if not (is_nil x.read_error)
      then failed (on_read x.read_error)
      else elim x.parsed [
        | failed e ↦ failed (provider_failure k protocol (wrapped "malformed catalog response" e))
        | returned entries ↦ snapshot_of x.now (collect entries)
      ]

  abbrev pub keep_verified : Bool → Outcome (Dict ProviderModel) → Outcome (Dict ProviderModel)
  keep_verified native (failed e) = failed e
  keep_verified native (returned models) =
      returned (if native then only_verified models else models)

  -- `Provider.DiscoverModels` in opencode; the flag is `nativeFreeOnly`, and no filter keeps all.
  unfoldable pub opencode_discover :
      Bool → (CatalogEntry → Bool) → CatalogExchange → Outcome CatalogSnapshot
  unfolding read_catalog catalog_failure add_entries entry_model canonicalize only_verified
  opencode_discover native keeps x =
      if not (is_nil x.build_error)
      then failed (wrapped "build catalog request" x.build_error)
      else if not (is_nil x.do_error)
      then failed (catalog_failure x network x.do_error)
      else read_catalog (catalog_failure x protocol) x (λ entries.
        keep_verified native
          (add_entries k (entry_model k keeps (canonicalize k) "opencode") [] entries))

  -- `Provider.DiscoverModels` of the clients with one key
  unfoldable pub keyed_discover :
      (String → String) → String → CatalogExchange → Outcome CatalogSnapshot
  unfolding read_catalog add_entries entry_model
  keyed_discover canonical provider_id x =
      if not (is_nil x.build_error)
      then failed (wrapped "build catalog request" x.build_error)
      else if not (is_nil x.do_error)
      then failed (provider_failure k network x.do_error)
      else read_catalog (provider_failure k protocol) x
          (add_entries k (entry_model k (λ e. true) canonical provider_id) [])

  unfoldable pub xai_discover : CatalogExchange → Outcome CatalogSnapshot
  unfolding keyed_discover canonicalize
  xai_discover = keyed_discover (canonicalize k) "xai"

  unfoldable pub gemini_discover : CatalogExchange → Outcome CatalogSnapshot
  unfolding keyed_discover canonicalize
  gemini_discover = keyed_discover (canonicalize k) "gemini"

  unfoldable pub nvidia_discover : CatalogExchange → Outcome CatalogSnapshot
  unfolding keyed_discover canonicalize_org
  nvidia_discover = keyed_discover (canonicalize_org k) "nvidia"
