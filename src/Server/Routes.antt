-- ===== src/Server/Routes.antt =====
-- The routes that `Start` sets up, and the function that shares out the agents' paths.
use Prim.Native.String.{len, slice}
use a2a_registry.Common.{◌-◌, String, Bool, not, ◌&&◌, ◌||◌, ◌==◌, ltb, if◌then◌else◌}
use a2a_registry.GoStrings.{contains, has_prefix, has_suffix}

pub data Route : Type 0 where
  dashboard page_not_found agent_card : Route
  register list deregister approve get_card get : Route
  put_config show_config search : Route

abbrev pub agents_root : String
agents_root = "/api/v1/agents"

abbrev pub agents_slash : String
agents_slash = "/api/v1/agents/"

-- What stands behind the prefix: `path[len("/api/v1/agents/"):]`.
unfoldable pub sub_path : String → String
sub_path path = slice path (len agents_slash) (len path)

-- `len(subPath) > 5 && subPath[len(subPath)-5:] == "/card"`
unfoldable pub ends_in_card : String → Bool
ends_in_card sub = ltb 5 (len sub) && slice sub (len sub - 5) (len sub) == "/card"

abbrev pub is_root : String → Bool
is_root path = path == agents_root || path == agents_slash

unfoldable pub sub_route : String → String → Route
sub_route method sub =
    if method == "DELETE" && not (contains sub "/")
    then deregister
    else if method == "POST" && has_suffix sub "/approve"
    then approve
    else if ends_in_card sub
    then get_card
    else get

-- The function `agentsHandler`.
unfoldable pub agents_route : String → String → Route
agents_route method path =
    if method == "POST" && is_root path
    then register
    else if is_root path
    then list
    else if ltb (len agents_slash) (len path)
    then sub_route method (sub_path path)
    else list

-- The patterns of the multiplexer: those without a slash at the end fit one path only.
unfoldable pub route : String → String → Route
route method path =
    if path == "/.well-known/agent-card.json" || path == "/.well-known/agent.json"
    then agent_card
    else if path == agents_root || has_prefix path agents_slash
    then agents_route method path
    else if path == "/api/v1/config"
    then (if method == "PUT" then put_config else show_config)
    else if path == "/api/v1/search"
    then search
    else if path == "/" || path == "/index.html"
    then dashboard
    else page_not_found

-- The label that `measureDuration` is given.
unfoldable pub endpoint : String → String
endpoint path =
    if path == "/.well-known/agent-card.json" || path == "/.well-known/agent.json"
    then "agent-card"
    else if path == agents_root || has_prefix path agents_slash
    then "agents"
    else if path == "/api/v1/config"
    then "config"
    else if path == "/api/v1/search"
    then "search"
    else "dashboard"
