-- ===== src/Examples/Endpoints.antt =====
-- Listed models and the adapter of a configured endpoint at concrete values, and a test of its address.
use free_model_router.Registry.Merge.{merge_accepted}
use free_model_router.Registry.Merge.{check_model}
use free_model_router.Registry.Merge.{check_models}
use free_model_router.Prelude.Text.{str_lt}
use free_model_router.Router.Rank.Sort.{sort_stable}
use free_model_router.Catalog.Pool.{contains}
use free_model_router.Prelude.Affix.{trim_right}
use free_model_router.Prelude.Affix.{starts_with}
use free_model_router.Prelude.Text.{str_discrete}
use Prim.Native.String.{◌++◌ as append}
use free_model_router.Config.{ProviderConfig}
use free_model_router.Examples.{model_of}
use free_model_router.Gateway.Errors.{nil}
use free_model_router.Model.Access.{unknown}
use free_model_router.Model.Identity.{matches_provider, parse, new_provider_model_id}
use free_model_router.Model.Route.{ProviderModel, ProviderRoute}
use free_model_router.Prelude.Text.{str_eq, str_eq_refl}
use mathlib.Core.Bool.{true≢false}
use free_model_router.Prelude.Int.{pos}
use free_model_router.Prelude.{
  ℕ, String, ◌≡◌, ◌≢◌, refl, sym, ap, ◌∙◌, true, false, Option, none, some, List, [], ◌∷◌, err, ok,
  ◌↔◌,
}
use free_model_router.Providers.Wire.{returned, ChatRequest}
use free_model_router.Providers.Http.{HttpRequest}
use free_model_router.Providers.Opencode.{opencode_chat}
use free_model_router.Providers.Catalog.{CatalogEntry, Coding, entry_model, canonicalize}
use free_model_router.Providers.Catalog.Discover.{CatalogExchange, keyed_discover}
use free_model_router.Providers.Catalog.Faithful.{
  IsHealthy, IsCatalogOf, keyed_discover-IsCatalogOf,
}
use free_model_router.Providers.Compat.{
  CompatProvider, all_features, compat_chat, generic_routes, compat_discover, rename_all,
}
use free_model_router.Providers.Compat.Own.{AllOwn, compat_chat-AllOwn}
use free_model_router.Examples.Upstreams.{as_it_is, marshal_whole, question, answered}
use free_model_router.Model.Snapshot.{CatalogSnapshot, entries}
use free_model_router.Registry.{Backend, Ready, discover_routed_catalog, discover_one}
use free_model_router.Prelude.Dict.{lookup, assign}
use free_model_router.Registry.Merge.{RoutedCatalog, no_catalog}
use free_model_router.Providers.Compat.Merged.{AllRoutable, discover_one-generic_iff}

abbrev plain_coding : Coding
plain_coding = record { to_lower = as_it_is; trim_space = as_it_is; encode = as_it_is }

abbrev entry_of : String → CatalogEntry
entry_of id = record {
  id = id;
  context_length = pos 0;
  max_output = pos 0;
  streaming = none;
  tools = some true;
  vision = none;
  structured = none;
  reasoning = none;
  pricing = [];
}

abbrev listed : List CatalogEntry
listed = entry_of "grok-4" ∷ entry_of "" ∷ entry_of "grok-3:free" ∷ []

abbrev listing : CatalogExchange
listing = record {
  build_error = nil;
  do_error = nil;
  ctx_err = nil;
  deadline = false;
  status = 200;
  read_error = nil;
  parsed = returned listed;
  now = 7;
}

listing-IsHealthy : IsHealthy listing listed
listing-IsHealthy = record {
  built = refl;
  called = refl;
  success = refl;
  whole = refl;
  decoded = refl;
}

keyed_discover-IsCatalogOf_example :
    IsCatalogOf plain_coding
      (entry_model plain_coding (λ e. true) (canonicalize plain_coding) "xai")
      listed
      (keyed_discover plain_coding (canonicalize plain_coding) "xai" listing)
keyed_discover-IsCatalogOf_example =
    keyed_discover-IsCatalogOf plain_coding (canonicalize plain_coding) "xai" listing listed
      listing-IsHealthy

abbrev endpoint_of : String → ProviderConfig
endpoint_of id = record {
  id = id;
  name = "";
  protocol = "openai-compatible";
  base_url = "https://llm.example/v1/";
  enabled = true;
  credential_ref = "";
  auto_probe = none;
  excluded_model_ids = [];
}

abbrev adapter_of : String → CompatProvider
adapter_of id = record {
  id = id;
  base_url = "https://llm.example/v1/";
  resolve = returned "secret";
}

not_zen : ◌≢◌ {A = String} "llm" "opencode-zen"
unfolding str_discrete
not_zen e = true≢false (sym (str_eq_refl "llm") ∙ ap (λ x. str_eq "llm" x) e)

abbrev built : String → ProviderRoute
built id = record {
  id = append id "::llama";
  model_id = "llm/llama";
  provider = id;
  upstream_model_id = "llama";
  credential_id = id;
  access = unknown;
  capability_override = some all_features;
  enabled = true;
  auto_route_allowed = some true;
  probe_allowed = some true;
  default_selected = some true;
}

abbrev llama : ProviderModel
llama = record (model_of "llm/llama") { upstream_id = "llama" }

compat_chat-AllOwn_example :
    AllOwn as_it_is marshal_whole
      (adapter_of "llm")
      (compat_chat as_it_is marshal_whole
        (adapter_of "llm")
        "zen key"
        (built "llm")
        question
        (answered 200)).sent
unfolding generic_routes matches_provider str_discrete starts_with contains
compat_chat-AllOwn_example =
    compat_chat-AllOwn as_it_is marshal_whole (endpoint_of "llm") llama (built "llm")
      (adapter_of "llm") "zen key" question (answered 200) refl not_zen

abbrev url_of : Option (HttpRequest (ChatRequest String ℕ)) → String
url_of none = ""
url_of (some h) = h.url

-- An endpoint whose id is that of the Zen route is not called at its own address.
zen_endpoint :
    url_of
      (compat_chat as_it_is marshal_whole
        (adapter_of "opencode-zen")
        "zen key"
        (built "opencode-zen")
        question
        (answered 200)).sent
    ≡ "https://opencode.ai/zen/v1/chat/completions"
unfolding compat_chat str_discrete opencode_chat starts_with trim_right
zen_endpoint = refl

-- What the backend of an endpoint lists: one model with the upstream id.
abbrev one_model : String → String → CatalogSnapshot
one_model provider upstream = record {
  revision = pos 0;
  created_at = 7;
  models = some (
      (
        append provider "/model",
        record (model_of "opencode/model") {
          id = append provider "/model";
          upstream_id = upstream;
        },
      )
      ∷ []);
}

abbrev backend_of : String → String → Backend String
backend_of id upstream = record {
  discover_error = nil;
  discovered = some (one_model id upstream);
  chat = λ r. r.id;
}

discover_one-generic_iff_example :
    ((m : RoutedCatalog) × (discover_one false no_catalog "llm" (
          some (record {
            backend = backend_of "llm" "llama";
            build = generic_routes (endpoint_of "llm");
          }))
        ≡ ok m))
    ↔ AllRoutable (entries (one_model "llm" "llama").models)
unfolding compat_discover rename_all parse new_provider_model_id lookup assign str_discrete
discover_one-generic_iff_example =
    discover_one-generic_iff (endpoint_of "llm") (one_model "opencode" "llama")
      (one_model "llm" "llama") no_catalog false (backend_of "llm" "llama") refl refl refl
      (λ key name h. refl)

abbrev ready_of : String → String → Ready String
ready_of id upstream = record {
  backend = backend_of id upstream;
  build = generic_routes (endpoint_of id);
}

-- An upstream id with "::" at one endpoint makes the discovery at every other one fail too.
colons_everywhere :
    discover_routed_catalog
      (λ id. false)
      (("good", ready_of "good" "llama") ∷ ("odd", ready_of "odd" "org::llama") ∷ [])
    ≡ err "route model part must not contain ::"
unfolding discover_routed_catalog sort_stable str_lt lookup str_discrete check_models check_model
    parse generic_routes matches_provider starts_with merge_accepted assign
colons_everywhere = refl
