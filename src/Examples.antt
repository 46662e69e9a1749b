-- ===== src/Examples.antt =====
-- Two free models of two providers, one of them with a second, unclassified route.
pub mod Pools
pub mod Requests
pub mod Records
pub mod Candidates
pub mod Latencies
pub mod Slots
pub mod Controls
pub mod Probes
pub mod Configs
pub mod Disk
pub mod Upstreams
pub mod Endpoints
pub mod Matches
pub mod Stores
use free_model_router.Prelude.{String, true, false, none, some, [], ◌∷◌, if◌then◌else◌}
use free_model_router.Model.Capability.{Capabilities, RequestRequirements}
use free_model_router.Model.Route.{ProviderModel, ProviderRoute}
use free_model_router.Model.Access.{AccessClass, free, unknown}
use free_model_router.Router.Filter.{Candidate, FilterInput}
use free_model_router.Model.Snapshot.{CatalogSnapshot}
use free_model_router.Catalog.Pool.{RouteMap, PoolState, automatic}
use free_model_router.Prelude.Int.{pos}
use free_model_router.Prelude.Text.{str_eq}

abbrev pub streaming_only : Capabilities
streaming_only = record {
  streaming = true;
  tools = false;
  vision = false;
  structured_output = false;
  reasoning = false;
  unknown = 2;
  context_length = pos 8192;
  max_output = pos 0;
}

abbrev pub tools_known : Capabilities
tools_known = record streaming_only { tools = true; unknown = 0; max_output = pos 1024 }

abbrev pub model_of : String → ProviderModel
model_of id = record {
  id = id;
  canonical_key = id;
  display_name = id;
  base = streaming_only;
  upstream_id = id;
}

abbrev pub route_of : String → String → String → AccessClass → ProviderRoute
route_of id model_id provider access = record {
  id = id;
  model_id = model_id;
  provider = provider;
  upstream_model_id = model_id;
  credential_id = "";
  access = access;
  capability_override = none;
  enabled = true;
  auto_route_allowed = none;
  probe_allowed = none;
  default_selected = none;
}

abbrev pub pickle : Candidate
pickle = record {
  model = model_of "oc/pickle";
  route = route_of "oc::pickle" "oc/pickle" "oc" free;
}

abbrev pub grok : Candidate
grok = record { model = model_of "xai/grok"; route = route_of "xai::grok" "xai/grok" "xai" free }

abbrev pub grok_key : Candidate
grok_key = record {
  model = model_of "xai/grok";
  route = route_of "key2::grok" "xai/grok" "xai" unknown;
}

abbrev pub both_models : CatalogSnapshot
both_models = record {
  revision = pos 0;
  created_at = 0;
  models = some (("oc/pickle", model_of "oc/pickle") ∷ ("xai/grok", model_of "xai/grok") ∷ []);
}

abbrev pub only_grok : CatalogSnapshot
only_grok = record both_models { models = some (("xai/grok", model_of "xai/grok") ∷ []) }

abbrev pub routes_of : RouteMap
routes_of id =
    if str_eq id "oc/pickle"
    then pickle.route ∷ []
    else if str_eq id "xai/grok"
    then grok.route ∷ grok_key.route ∷ []
    else []

abbrev pub pickle_pool : PoolState
pickle_pool = record {
  config = record { revision = pos 1; mode = automatic; selected = "oc/pickle" ∷ [] };
  tombstones = [];
}

abbrev pub no_requirements : RequestRequirements
no_requirements = record {
  streaming = true;
  tools = false;
  vision = false;
  structured_output = false;
  reasoning = false;
  min_context_length = pos 0;
  max_output_tokens = pos 0;
}

abbrev pub pool_request : FilterInput
pool_request = record {
  explicit_id = "";
  pool = "oc/pickle" ∷ "xai/grok" ∷ "oc/pickle" ∷ [];
  catalog = some both_models;
  routes = routes_of;
  reqs = no_requirements;
  allow_paid = false;
  allow_unknown = false;
  protocol_compatible = none;
  health = none;
  clock = λ r. 0;
}
