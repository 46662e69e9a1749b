-- ===== src/Registry.antt =====
-- internal/providers/registry/registry.go: the configured providers, the catalog merged from theirs, and
-- the dispatch of a request. What a provider answers is a parameter of the model: `discover` and `chat`
-- of a backend, and the routes that its builder gives a model.
pub mod Merge
pub mod Checked
pub mod Owned
use free_model_router.Prelude.Dict.{Dict, lookup, assign, keys}
use free_model_router.Prelude.Text.{str_eq, str_lt}
use free_model_router.Prelude.Int.{pos, ℤ}
use free_model_router.Model.Identity.{parse}
use free_model_router.Model.Route.{ProviderModelId, ProviderModel, ProviderRoute}
use free_model_router.Model.Snapshot.{CatalogSnapshot, entries}
use free_model_router.Model.Failure.{
  Failure, FailureClass, FailureScope, auth, rate_limited, timeout, network, server_error, protocol,
  provider, credential,
}
use free_model_router.Gateway.Errors.{Error, is_nil, is_canceled, as_failure}
use free_model_router.Catalog.Reconcile.{is_some, ◌>>=◌}
use free_model_router.Router.Rank.Sort.{sort_stable}
use free_model_router.Prelude.{
  ℕ, zero, suc, ◌+◌, ◌-◌, ◌*◌, ◌/◌, ◌%◌, ◌^◌, ◌≤◌, ◌<◌, String, ◌≡◌, refl, sym, ap, ◌∙◌, ◌≢◌, ◌↔◌,
  ◌⊎◌, inl, inr, Bool, true, false, not, ◌&&◌, ◌||◌, Option, none, some, List, [], ◌∷◌, ◌++◌, arith,
  ltb, leb, ◌==◌, if◌then◌else◌, Bool-cases, Option-cases, &&_iff, bool_ext, Result, ok, err,
  Result-cases, length, All, length-append, All-append, In, In-append_left, In-append_right,
  In-append_cases, All-In,
}
use free_model_router.Registry.Merge.{
  RouteBuilder, RoutedCatalog, no_catalog, degraded_availability, degrade, merge_snapshot,
}

-- What a provider answers: the error and the catalog of `DiscoverModels`, and `ChatCompletion`.
pub record Backend (R : Type 0) : Type 0 where
  pub discover_error : Error
  pub discovered : Option CatalogSnapshot
  pub chat : ProviderRoute → R

-- `Entry`; a nil interface or function is `none`.
pub record Entry (R : Type 0) : Type 0 where
  pub id : String
  pub backend : Option (Backend R)
  pub routes : Option RouteBuilder

-- An entry that `New` accepted.
pub record Ready (R : Type 0) : Type 0 where
  pub backend : Backend R
  pub build : RouteBuilder

module _ {R : Type 0} where
  abbrev pub index_entry :
      Dict (Ready R) → String → Option (Backend R) → Option RouteBuilder → Result (Dict (Ready R))
  index_entry r id (some b) (some build) =
      if str_eq id ""
      then err "provider entry is incomplete"
      else if is_some (lookup id r)
      then err "duplicate provider entry"
      else ok (assign id (record { backend = b; build = build }) r)
  index_entry r id _ _ = err "provider entry is incomplete"

  -- the loop of `New`
  unfoldable pub index_entries : Dict (Ready R) → List (Entry R) → Result (Dict (Ready R))
  index_entries r [] = ok r
  index_entries r (e ∷ es) = do next ← index_entry r e.id e.backend e.routes; index_entries next es

  abbrev pub not_empty : Dict (Ready R) → Result (Dict (Ready R))
  not_empty [] = err "provider registry has no entries"
  not_empty (e ∷ r) = ok (e ∷ r)

  -- `New`
  unfoldable pub new_registry : List (Entry R) → Result (Dict (Ready R))
  unfolding index_entries
  new_registry es = index_entries [] es >>= not_empty

  -- The body of the loop of `DiscoverRoutedCatalog` for one provider.
  abbrev pub discover_one : Bool → RoutedCatalog → String → Option (Ready R) → Result RoutedCatalog
  discover_one ctx_err out id none = err "discover"
  discover_one ctx_err out id (some e) =
      if not (is_nil e.backend.discover_error)
      then (if ctx_err || is_canceled e.backend.discover_error
          then err "discover"
          else degrade out (degraded_availability id e.backend.discover_error))
      else merge_snapshot id e.build out e.backend.discovered

  unfoldable pub discover_all :
      (String → Bool) → Dict (Ready R) → RoutedCatalog → List String → Result RoutedCatalog
  discover_all ctx_err r out [] = ok out
  discover_all ctx_err r out (id ∷ ids) = do
    next ← discover_one (ctx_err id) out id (lookup id r)
    discover_all ctx_err r next ids

  -- `DiscoverRoutedCatalog`; `ctx_err` is what the context says when a provider has failed.
  unfoldable pub discover_routed_catalog : (String → Bool) → Dict (Ready R) → Result RoutedCatalog
  unfolding discover_all
  discover_routed_catalog ctx_err r =
      discover_all ctx_err r no_catalog (sort_stable str_lt (keys r))

  abbrev pub dispatch : ProviderRoute → Backend R → Result (String × String) → Result R
  dispatch route b (err e) = err "route has invalid ownership"
  dispatch route b (ok (owner, name)) =
      if not (str_eq owner route.provider)
      then err "route has invalid ownership"
      else ok (b.chat route)

  abbrev pub dispatch_entry : ProviderRoute → Option (Ready R) → Result R
  dispatch_entry route none = err "unknown route provider"
  dispatch_entry route (some e) = dispatch route e.backend (parse route.model_id)

  -- `ChatCompletion`
  unfoldable pub chat_completion : Dict (Ready R) → ProviderRoute → Result R
  chat_completion r route = dispatch_entry route (lookup route.provider r)
