-- ===== src/Config.antt =====
-- internal/config/config.go and internal/config/providers.go: the persisted configuration and its
-- validation. The functions of packages strings, unicode, net and net/url are parameters.
pub mod Persisted
pub mod Valid
pub mod Saved
use Prim.Native.String.{len}
use Prim.Native.String.{◌++◌ as append}
use Prim.Native.Char.{code}
use free_model_router.Prelude.Text.{str_eq}
use free_model_router.Prelude.Int.{ℤ, pos, ltb_ℤ}
use free_model_router.Prelude.Dict.{Dict}
use free_model_router.Model.Identity.{matches_provider}
use free_model_router.Catalog.Pool.{contains}
use free_model_router.Catalog.Reconcile.{◌>>=◌}
use free_model_router.Prelude.{
  ℕ, zero, suc, ◌+◌, ◌-◌, ◌*◌, ◌/◌, ◌%◌, ◌^◌, ◌≤◌, ◌<◌, String, ◌≡◌, refl, sym, ap, ◌∙◌, ◌≢◌, ◌↔◌,
  ◌⊎◌, inl, inr, Bool, true, false, not, ◌&&◌, ◌||◌, Option, none, some, List, [], ◌∷◌, ◌++◌, arith,
  ltb, leb, ◌==◌, if◌then◌else◌, Bool-cases, Option-cases, &&_iff, bool_ext, Result, ok, err,
  Result-cases, length, All, length-append, All-append, In, In-append_left, In-append_right,
  In-append_cases, All-In,
}

-- `ProviderConfig`; a nil pointer is `none`.
pub record ProviderConfig : Type 0 where
  pub id : String
  pub name : String
  pub protocol : String
  pub base_url : String
  pub enabled : Bool
  pub credential_ref : String
  pub auto_probe : Option Bool
  pub excluded_model_ids : List String

-- `PersistedConfig`
pub record PersistedConfig : Type 0 where
  pub schema_version : ℤ
  pub source_path : String
  pub bind : String
  pub management_bind : String
  pub log_level : String
  pub model_pool : List String
  pub provider_enabled : Dict Bool
  pub providers : List ProviderConfig
  pub config_revision : ℤ
  pub pinned_model : String
  pub model_pool_mode : String

-- `CurrentSchemaVersion`
abbrev pub current_schema_version : ℤ
current_schema_version = pos 2

-- `defaultProviders`
abbrev pub default_providers : List ProviderConfig
default_providers =
    record {
      id = "opencode";
      name = "OpenCode";
      protocol = "openai-compatible";
      base_url = "https://opencode.ai/zen/v1";
      enabled = true;
      credential_ref = "";
      auto_probe = none;
      excluded_model_ids = [];
    }
    ∷ []

-- `PersistedDefaults`
abbrev pub persisted_defaults : PersistedConfig
persisted_defaults = record {
  schema_version = current_schema_version;
  source_path = "";
  bind = "127.0.0.1:8787";
  management_bind = "127.0.0.1:8788";
  log_level = "info";
  model_pool = [];
  provider_enabled = [];
  providers = default_providers;
  config_revision = pos 0;
  pinned_model = "";
  model_pool_mode = "Automatic";
}

-- What `url.Parse` gives.
pub record Endpoint : Type 0 where
  pub scheme : String
  pub host : String
  pub hostname : String
  pub has_user : Bool
  pub fragment : String
  pub raw_query : String

pub record Parsers : Type 0 where
  pub trim_space : String → String
  pub trim_prefix : String → String → String
  pub trim_suffix : String → String → String
  pub equal_fold : String → String → Bool
  pub has_control : String → Bool
  pub parse_url : String → Option Endpoint
  pub is_loopback_ip : String → Bool
  pub itoa : ℕ → String

-- `strings.Trim(s, "0123456789") == ""`
unfoldable pub is_digits : String → Bool
is_digits String.[] = true
is_digits (String.◌∷◌ c s) = (leb b'0' (code c) && leb (code c) b'9') && is_digits s

-- `AutoProbeEnabled`
abbrev pub auto_probe_enabled : Option Bool → Bool
auto_probe_enabled none = true
auto_probe_enabled (some b) = b

-- `ModelExcluded`: the loop is that of `contains`.
unfoldable pub model_excluded : ProviderConfig → String → Bool
model_excluded p upstream_id = contains p.excluded_model_ids upstream_id

module _ (ps : Parsers) where
  -- `isLoopbackHost`
  unfoldable pub is_loopback_host : String → Bool
  is_loopback_host host =
      if ps.equal_fold (ps.trim_suffix host ".") "localhost" then true else ps.is_loopback_ip host

  -- The checks of the base URL.
  abbrev pub check_endpoint : Option Endpoint → Result (Unit {0})
  check_endpoint none = err "config: provider baseUrl must be an absolute URL"
  check_endpoint (some e) =
      if str_eq e.scheme "" || str_eq e.host ""
      then err "config: provider baseUrl must be an absolute URL"
      else if e.has_user || not (str_eq e.fragment "") || not (str_eq e.raw_query "")
      then err "config: provider baseUrl must not contain credentials, query, or fragment"
      else if not (str_eq e.scheme "https") && not (str_eq e.scheme "http")
      then err "config: provider baseUrl must use http or https"
      else if str_eq e.scheme "http" && not (is_loopback_host e.hostname)
      then err "config: provider baseUrl must use https unless it targets loopback"
      else ok tt

  -- The revision behind `provider.<id>.` is a number.
  unfoldable pub check_credential_ref : String → String → Result (Unit {0})
  unfolding is_digits
  check_credential_ref id ref =
      let revision = ps.trim_prefix ref (append "provider." (append id ".")) in
      if str_eq ref ""
      then ok tt
      else if str_eq revision ref || str_eq revision "" || not (is_digits revision)
      then err "config: provider has an invalid credential reference"
      else ok tt

  -- The loop over the excluded models, with those seen before.
  unfoldable pub check_excluded : List String → List String → Result (Unit {0})
  check_excluded seen [] = ok tt
  check_excluded seen (id ∷ ids) =
      let rest = check_excluded (id ∷ seen) ids in
      if str_eq id "" || ltb 512 (len id) || ps.has_control id
      then err "config: provider has an invalid excluded model id"
      else if contains seen id
      then err "config: provider has duplicate excluded model id"
      else rest

  abbrev pub check_excluded_ids : List String → Result (Unit {0})
  check_excluded_ids ids =
      if ltb 512 (length ids)
      then err "config: provider has too many excluded models"
      else check_excluded [] ids

  -- The body of the loop of `validateProviders`.
  unfoldable pub check_provider : List String → ProviderConfig → Result (Unit {0})
  unfolding check_credential_ref check_excluded is_loopback_host
  check_provider seen p =
      if not (matches_provider p.id)
      then err "config: invalid provider id"
      else if contains seen p.id
      then err "config: duplicate provider id"
      else if str_eq (ps.trim_space p.name) ""
      then err "config: provider name must not be empty"
      else if not (str_eq p.protocol "openai-compatible")
      then err "config: provider has unsupported protocol"
      else (do
        _ ← check_endpoint (ps.parse_url p.base_url)
        _ ← check_credential_ref p.id p.credential_ref
        check_excluded_ids p.excluded_model_ids)

  -- `validateProviders`
  unfoldable pub validate_providers : List String → List ProviderConfig → Result (Unit {0})
  unfolding check_provider
  validate_providers seen [] = ok tt
  validate_providers seen (p ∷ rest) = do
    _ ← check_provider seen p
    validate_providers (p.id ∷ seen) rest

  abbrev pub is_level : String → Bool
  is_level l = str_eq l "debug" || str_eq l "info" || str_eq l "warn" || str_eq l "error"

  abbrev pub is_mode : String → Bool
  is_mode m = str_eq m "" || str_eq m "Automatic" || str_eq m "Manual"

  -- The checks of `validate` behind those of the schema version.
  unfoldable pub validate_settings : PersistedConfig → Result (Unit {0})
  unfolding validate_providers
  validate_settings c =
      if str_eq c.bind ""
      then err "config: bind must not be empty"
      else if str_eq c.management_bind ""
      then err "config: management bind must not be empty"
      else if not (is_level c.log_level)
      then err "config: invalid logLevel"
      else if not (is_mode c.model_pool_mode)
      then err "config: invalid modelPoolMode"
      else if not (str_eq c.pinned_model "") && not (contains c.model_pool c.pinned_model)
      then err "config: pinned model must be in model pool"
      else validate_providers [] c.providers

  -- `validate`
  unfoldable pub validate : PersistedConfig → Result (Unit {0})
  unfolding validate_settings
  validate c =
      if ltb_ℤ c.schema_version (pos 0)
      then err "config: invalid schema version"
      else if ltb_ℤ current_schema_version c.schema_version
      then err "config: unsupported schema version"
      else validate_settings c
