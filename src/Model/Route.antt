-- ===== src/Model/Route.antt =====
-- internal/model/types.go: provider models, and the routes that serve them.
use free_model_router.Prelude.{
  Bool, false, not, String, Option, none, some, Result, ok, err, if◌then◌else◌,
}
use free_model_router.Prelude.Text.{str_eq}
use free_model_router.Model.Access.{
  AccessClass, unknown, omitted, auto_routable, probeable, is_valid,
}
use free_model_router.Model.Capability.{Capabilities, intersect}

abbrev pub ProviderModelId : Type 0
ProviderModelId = String

abbrev pub RouteId : Type 0
RouteId = String

pub record ProviderModel : Type 0 where
  pub id : ProviderModelId
  pub canonical_key : String
  pub display_name : String
  pub base : Capabilities
  pub upstream_id : String

-- A nil pointer is `none`.
pub record ProviderRoute : Type 0 where
  pub id : RouteId
  pub model_id : ProviderModelId
  pub provider : String
  pub upstream_model_id : String
  pub credential_id : String
  pub access : AccessClass
  pub capability_override : Option Capabilities
  pub enabled : Bool
  pub auto_route_allowed : Option Bool
  pub probe_allowed : Option Bool
  pub default_selected : Option Bool

-- `EffectiveAccess`: an omitted classification is Unknown.
abbrev pub resolve_access : AccessClass → AccessClass
resolve_access omitted = unknown
resolve_access a = a

unfoldable pub effective_access : ProviderRoute → AccessClass
effective_access r = resolve_access r.access

-- `*flag` where the flag is set, and the legacy rule where it is nil
abbrev pub flag_or : Option Bool → Bool → Bool
flag_or (some b) legacy = b
flag_or none legacy = legacy

unfoldable pub allows_automatic_routing : ProviderRoute → Bool
unfolding effective_access
allows_automatic_routing r = flag_or r.auto_route_allowed (auto_routable (effective_access r))

unfoldable pub allows_probe : ProviderRoute → Bool
unfolding effective_access
allows_probe r = flag_or r.probe_allowed (probeable (effective_access r))

unfoldable pub selected_by_default : ProviderRoute → Bool
selected_by_default r = flag_or r.default_selected false

abbrev pub narrow : Capabilities → Option Capabilities → Capabilities
narrow base none = base
narrow base (some o) = intersect base o

-- `EffectiveCapabilities`
unfoldable pub effective_capabilities : ProviderRoute → Capabilities → Capabilities
effective_capabilities r base = narrow base r.capability_override

-- `(*ProviderRoute).Validate`
unfoldable pub validate : ProviderRoute → Result (Unit {0})
unfolding effective_access
validate r =
    if str_eq r.id ""
    then err "route id must not be empty"
    else if str_eq r.model_id ""
    then err "route model id must not be empty"
    else if str_eq r.provider ""
    then err "route provider must not be empty"
    else if str_eq r.upstream_model_id ""
    then err "route upstream model id must not be empty"
    else if not (is_valid (effective_access r))
    then err "invalid route access"
    else ok tt
