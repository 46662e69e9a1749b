-- ===== src/Examples/Controls.antt =====
-- The control plane, the guard of the server, the merged catalog and the probes at concrete inputs.
use free_model_router.Prelude.Dict.{assign}
use free_model_router.Registry.Merge.{merge_accepted}
use free_model_router.Model.Identity.{parse}
use free_model_router.Registry.Merge.{check_model}
use free_model_router.Registry.Merge.{check_models}
use free_model_router.Prelude.Text.{str_discrete}
use free_model_router.Prelude.Text.{str_lt}
use free_model_router.Router.Rank.Sort.{sort_stable}
use free_model_router.Examples.{pickle, grok, both_models, pickle_pool}
use free_model_router.Gateway.Control.{Control, PoolMutation}
use free_model_router.Gateway.Control.Optimistic.{IsOptimistic}
use free_model_router.Gateway.Control.Writes.{pins, updates, handle, handle-IsOptimistic}
use free_model_router.Gateway.Control.Restore.{restore_control_state}
use free_model_router.Gateway.Control.Pinned.{
  Event, writes, refreshes, run, is_pin_selected, run-restore_control_state,
}
use free_model_router.Catalog.Store.{Store}
use free_model_router.Catalog.Pool.{manual}
use free_model_router.Security.{Net, served}
use free_model_router.Security.Guarded.{IsGuarded, require_inference_auth-IsGuarded}
use free_model_router.Registry.{Ready, chat_completion, discover_routed_catalog}
use free_model_router.Registry.Merge.{RoutedCatalog}
use free_model_router.Registry.Owned.{discover_routed_catalog-chat_completion}
use free_model_router.Prelude.Dict.{Dict, lookup}
use free_model_router.Examples.{model_of}
use free_model_router.Model.Snapshot.{CatalogSnapshot}
use free_model_router.Model.Route.{ProviderRoute}
use free_model_router.Security.{require_inference_auth}
use free_model_router.Gateway.Errors.{nil}
use free_model_router.Prelude.{
  String, ◌≡◌, refl, inl, true, false, none, some, List, [], ◌∷◌, if◌then◌else◌, ok,
}
use free_model_router.Prelude.Int.{pos}
use free_model_router.Prelude.Text.{str_eq}

abbrev pickle_store : Store
pickle_store = record { pool = pickle_pool; catalog = some both_models; snapshot_revision = pos 1 }

abbrev control : Control
control = record {
  pool = pickle_store;
  catalog = some both_models;
  routes = ("oc/pickle", pickle.route ∷ []) ∷ ("xai/grok", grok.route ∷ []) ∷ [];
  pinned_model = "";
}

abbrev add_grok : PoolMutation
add_grok = record {
  select = "xai/grok" ∷ [];
  deselect = [];
  select_all = false;
  clear_all = false;
  mode = none;
}

abbrev drop_grok : PoolMutation
drop_grok = record add_grok { select = []; deselect = "xai/grok" ∷ [] }

handle-IsOptimistic_example :
    IsOptimistic control (pos 1) (handle control (updates (pos 1) add_grok))
handle-IsOptimistic_example = handle-IsOptimistic control (updates (pos 1) add_grok)

abbrev control_events : List Event
control_events =
    writes (updates (pos 2) add_grok)
    ∷ writes (pins (pos 3) "xai/grok")
    ∷ refreshes both_models [] 5
    ∷ writes (updates (pos 5) drop_grok)
    ∷ []

run-restore_control_state_example :
    is_pin_selected
      (run (restore_control_state control ("oc/pickle" ∷ []) manual "oc/pickle").0 control_events)
    ≡ true
run-restore_control_state_example =
    run-restore_control_state control ("oc/pickle" ∷ []) manual "oc/pickle" control_events refl

-- One public address and one token.
abbrev net : Net
net = record {
  trim_space = λ s. s;
  equal_fold = str_eq;
  split_host_port = λ s. if str_eq s "10.0.0.1:80" then some ("10.0.0.1", "80") else none;
  is_loopback_ip = str_eq "127.0.0.1";
  fields = λ s. if str_eq s "Bearer key" then "Bearer" ∷ "key" ∷ [] else s ∷ [];
}

abbrev home_page : String → String
home_page header = "page"

require_inference_auth-IsGuarded_example :
    IsGuarded net home_page "10.0.0.1:80" "key"
      (require_inference_auth net (some (λ header. served (home_page header))) "10.0.0.1:80" "key")
require_inference_auth-IsGuarded_example =
    require_inference_auth-IsGuarded net home_page "10.0.0.1:80" "key"

abbrev only : String → CatalogSnapshot
only id = record both_models { models = some ((id, model_of id) ∷ []) }

abbrev one_route : String → ProviderRoute → Ready String
one_route name r = record {
  backend = record { discover_error = nil; discovered = some (only r.model_id); chat = λ q. name };
  build = λ pm. ok (r ∷ []);
}

abbrev configured : Dict (Ready String)
configured =
    ("xai", one_route "from xai" grok.route) ∷ ("oc", one_route "from oc" pickle.route) ∷ []

abbrev merged : RoutedCatalog
merged = record {
  created_at = 0;
  models = ("oc/pickle", model_of "oc/pickle") ∷ ("xai/grok", model_of "xai/grok") ∷ [];
  routes = ("oc/pickle", pickle.route ∷ []) ∷ ("xai/grok", grok.route ∷ []) ∷ [];
  providers =
      record { id = "oc"; available = true; error_code = ""; message = "" }
      ∷ record { id = "xai"; available = true; error_code = ""; message = "" }
      ∷ [];
}

discover_routed_catalog-chat_completion_example :
    (grok.route.model_id ≡ "xai/grok")
    × ((e : Ready String) × (lookup "xai" configured ≡ some e)
        × (chat_completion configured grok.route ≡ ok (e.backend.chat grok.route)))
unfolding discover_routed_catalog sort_stable str_lt lookup str_discrete check_models check_model
    parse merge_accepted assign
discover_routed_catalog-chat_completion_example =
    discover_routed_catalog-chat_completion configured (λ id. false) merged "xai/grok"
      (grok.route ∷ []) grok.route refl refl (inl refl)
