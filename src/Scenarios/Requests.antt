-- ===== src/Scenarios/Requests.antt =====
-- The theorems on the API server and the resolver at concrete requests.
use a2a_registry.Common.Int32.{pos}
use a2a_registry.Common.{
  none, false, Result, String, ◌<>◌, List, [], ◌∷◌, ◌++◌, some, ok, err, ◌≡◌, refl, arith, ◌⊎◌,
  false≢true, eq_iff,
}
use a2a_registry.Platform.{memory_client, ascii_std, metric, agent_card_fetch_errors_total_inc}
use a2a_registry.Platform.Memory.Laws.{memory_client-LawfulClient}
use a2a_registry.Resolver.{ResolveResult, build_auth_headers, fetch_card}
use a2a_registry.Resolver.Laws.{build_auth_headers-bearer, fetch_card-cases, primary, fallback}
use a2a_registry.Handler.Http.{RegistryEntry, json, entries}
use a2a_registry.Handler.Names.{
  generate_k8s_name, keep_name_chars, is_name_char, extract_name_from_path,
}
use a2a_registry.GoStrings.{replace_all, to_lower}
use a2a_registry.Handler.Query.{label_selector_from_config, list_agents, search_agents}
use a2a_registry.Handler.Query.Lookup.{get_agent}
use a2a_registry.Handler.Query.Laws.{Selected, Listed, list_agents-Selected}
use a2a_registry.Handler.Query.SearchLaws.{Found, search_agents-Selected}
use a2a_registry.Handler.Config.{UpdateConfigRequest, update_config}
use a2a_registry.Handler.Config.Laws.{Sent, update_config-cases}
use a2a_registry.Handler.Register.{new_agent, register_request}
use a2a_registry.Handler.Register.Laws.{
  Refused, Created, register_request-cases, get_agent-register_request,
}
use a2a_registry.Server.Routes.{deregister, approve, get_card, agents_slash, route}
use a2a_registry.Server.Laws.{IsSegment, route-segment, route-get_card}
use a2a_registry.Scenarios.Samples.{
  greeter, silent, discovery, before, old_hosts, request_for, echo_request,
}

list_example :
    (es : List RegistryEntry) × (list_agents ascii_std memory_client
        (some discovery)
        (request_for "GET" "/api/v1/agents")
        before
      ≡ (json (entries es), before))
    × Selected (Listed ascii_std discovery "" "") (greeter ∷ silent ∷ []) es
unfolding label_selector_from_config
list_example =
    list_agents-Selected ascii_std memory_client discovery (request_for "GET" "/api/v1/agents")
      before (greeter ∷ silent ∷ []) refl

search_agents_example :
    (es : List RegistryEntry) × (search_agents ascii_std memory_client none
        (request_for "GET" "/api/v1/search")
        before
      ≡ (json (entries es), before))
    × Selected (Found ascii_std "" "" "" "") (greeter ∷ silent ∷ []) es
unfolding to_lower label_selector_from_config
search_agents_example =
    search_agents-Selected ascii_std memory_client none (request_for "GET" "/api/v1/search") before
      (greeter ∷ silent ∷ []) refl

abbrev open_request : UpdateConfigRequest
open_request = record {
  require_approval = some false;
  require_health_check = none;
  require_card_match = none;
  health_check_interval_seconds = some (pos 30);
  health_check_timeout_seconds = none;
}

abbrev open_decoder : String → Result String UpdateConfigRequest
open_decoder body = ok open_request

update_example :
    (((update_config memory_client open_decoder
          (request_for "PUT" "/api/v1/config")
          before).0.status
        ≡ 404)
      × ((update_config memory_client open_decoder (request_for "PUT" "/api/v1/config") before).1
          ≡ before))
    ⊎ Sent memory_client open_request before
        (update_config memory_client open_decoder (request_for "PUT" "/api/v1/config") before).0
        (update_config memory_client open_decoder (request_for "PUT" "/api/v1/config") before).1
update_example =
    update_config-cases memory_client open_decoder (request_for "PUT" "/api/v1/config") before
      open_request refl

register_example :
    Refused ascii_std memory_client before
      (register_request ascii_std memory_client echo_request before).0
      (register_request ascii_std memory_client echo_request before).1
    ⊎ Created ascii_std memory_client echo_request before
        (register_request ascii_std memory_client echo_request before).0
        (register_request ascii_std memory_client echo_request before).1
register_example = register_request-cases ascii_std memory_client echo_request before

get_registered_example :
    (get_agent memory_client
      (request_for "GET" "/api/v1/agents/echo-agent")
      (register_request ascii_std memory_client echo_request before).1).0
    ≡ json (register_request ascii_std memory_client echo_request before).0.payload
unfolding register_request new_agent generate_k8s_name keep_name_chars replace_all to_lower
    is_name_char
get_registered_example =
    get_agent-register_request ascii_std memory_client echo_request
      (request_for "GET" "/api/v1/agents/echo-agent") before memory_client-LawfulClient refl refl
      refl

greeter-IsSegment : IsSegment "greeter"
greeter-IsSegment = ((λ e. false≢true ((eq_iff "greeter" "").1 e)), ground arith)

route-segment_example :
    (route "DELETE" (agents_slash <> "greeter") ≡ deregister)
    × (extract_name_from_path (agents_slash <> "greeter") agents_slash ≡ "greeter")
    × (route "POST" (agents_slash <> ("greeter" <> "/approve")) ≡ approve)
    × (extract_name_from_path (agents_slash <> ("greeter" <> "/approve")) agents_slash ≡ "greeter")
route-segment_example = route-segment "greeter" greeter-IsSegment

route-get_card_example :
    (route "GET" (agents_slash <> ("greeter" <> "/card")) ≡ get_card)
    × (extract_name_from_path (agents_slash <> ("greeter" <> "/card")) agents_slash ≡ "greeter")
route-get_card_example =
    route-get_card "GET" "greeter" (λ e. false≢true ((eq_iff "GET" "DELETE").1 e))
      (λ e. false≢true ((eq_iff "GET" "POST").1 e)) greeter-IsSegment

bearer_example :
    build_auth_headers ascii_std
      (record { schemes = ("Basic" ∷ []) ++ "Bearer" ∷ []; secret_data = ("token", "t0k") ∷ [] })
    ≡ ("Authorization", "Bearer " <> "t0k") ∷ []
unfolding build_auth_headers to_lower
bearer_example =
    build_auth_headers-bearer ascii_std ("Basic" ∷ []) "Bearer" "t0k" (("token", "t0k") ∷ []) refl
      refl

fetch_example :
    ((r : ResolveResult) × (primary ascii_std old_hosts "http://greeter/" [] ≡ ok r)
      × (fetch_card ascii_std old_hosts "http://greeter/" [] ≡ (ok r, [])))
    ⊎ ((e : String) × (r : ResolveResult) × (primary ascii_std old_hosts "http://greeter/" []
          ≡ err e)
        × (fallback ascii_std old_hosts "http://greeter/" [] ≡ ok r)
        × (fetch_card ascii_std old_hosts "http://greeter/" [] ≡ (ok r, [])))
    ⊎ ((e f m : String) × (primary ascii_std old_hosts "http://greeter/" [] ≡ err e)
        × (fallback ascii_std old_hosts "http://greeter/" [] ≡ err f)
        × (fetch_card ascii_std old_hosts "http://greeter/" []
            ≡ (err m, metric agent_card_fetch_errors_total_inc ∷ [])))
fetch_example = fetch_card-cases ascii_std old_hosts "http://greeter/" []
