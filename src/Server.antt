-- ===== src/Server.antt =====
-- internal/registry/server.go: the address, the discovery configuration, and the routes. Go's
-- `ServeMux` is modelled at clean paths, for which it makes no redirect.
pub mod Routes
pub mod Address
pub mod Lifecycle
pub mod Laws
use a2a_registry.Common.{
  ℕ, String, List, ◌∷◌, Bool, true, false, Option, none, some, Result, ◌==◌, if◌then◌else◌,
}
use a2a_registry.Api.{Time, DiscoveryConfig}
use a2a_registry.Platform.{Std, KubeClient, World, metric, api_request_duration_observe, emit}
use a2a_registry.Handler.Http.{Request, Response, Serve, dashboard_html, http_error, json}
use a2a_registry.Handler.Query.{list_agents, search_agents}
use a2a_registry.Handler.Query.Lookup.{get_agent, get_agent_card, well_known}
use a2a_registry.Handler.Register.{RegisterRequest, register_agent, deregister_agent, approve_agent}
use a2a_registry.Handler.Config.{UpdateConfigRequest, get_config, update_config}
use a2a_registry.Server.Routes.{
  Route, dashboard, page_not_found, agent_card, register, list, deregister, approve, get_card, get,
  put_config, show_config, search, route, endpoint,
}
use a2a_registry.Server.Address.{resolve_addr}

-- A write and a read of the configuration are single steps. In Go, `UpdateConfig` and `GetConfig`
-- hold a lock for that, and the handlers, which read through a pointer, do not.
pub record Server : Type 0 where
  pub addr : String
  pub discovery_config : DiscoveryConfig

unfoldable pub new_server : Std → String → Server
unfolding resolve_addr
new_server std addr = record {
  addr = resolve_addr std addr;
  discovery_config = record { scope = "Cluster"; label_selector = ""; namespaces = List.[] };
}

unfoldable pub update_server_config : DiscoveryConfig → Server → Server
update_server_config cfg s = record s { discovery_config = cfg }

unfoldable pub get_server_config : Server → DiscoveryConfig
get_server_config s = s.discovery_config

module _ {C Sel : Type 0} (std : Std) (K : KubeClient C Sel)
    (decode_register : String → Result String RegisterRequest)
    (decode_update : String → Result String UpdateConfigRequest) (now : Time) where
  -- The handler of a route. Handlers read the server's configuration through a pointer.
  unfoldable pub handle : Server → Route → Request → Serve C
  handle s dashboard r w = (json dashboard_html, w)
  handle s page_not_found r w = (http_error 404 "404 page not found", w)
  handle s agent_card r w = well_known r w
  handle s register r w = register_agent std K decode_register r w
  handle s list r w = list_agents std K (some s.discovery_config) r w
  handle s deregister r w = deregister_agent std K r w
  handle s approve r w = approve_agent std K now r w
  handle s get_card r w = get_agent_card K r w
  handle s get r w = get_agent K r w
  handle s put_config r w = update_config K decode_update r w
  handle s show_config r w = get_config K (some s.discovery_config) w
  handle s search r w = search_agents std K (some s.discovery_config) r w

  -- `measureDuration` around the handler.
  unfoldable pub serve : Server → Request → Serve C
  unfolding handle route endpoint
  serve s r w =
      let (resp, w') = handle s (route r.method r.path) r w in
      (resp, (emit (metric (api_request_duration_observe (endpoint r.path) r.method)) w').1)
