-- ===== src/Scenarios/Operators.antt =====
-- The theorems on the API as a directory and on the operator as a whole, at a first registration.
use a2a_registry.Common.{String, [], none, Result, ok, err, arith}
use a2a_registry.Api.{ObjectKey}
use a2a_registry.Platform.{World, ascii_std, list_util}
use a2a_registry.Handler.Register.{RegisterRequest}
use a2a_registry.Handler.Config.{UpdateConfigRequest}
use a2a_registry.AgentController.Reconcile.{reconcile}
use a2a_registry.Server.{Server, serve}
use a2a_registry.Server.Routes.{route}
use a2a_registry.System.{System, here, step, served, reconciled}
use a2a_registry.System.Keeps.{AllHeld}
use a2a_registry.System.Coherence.{IsCoherent}
use a2a_registry.System.Directory.{Directory, Serves}
use a2a_registry.System.Refinement.{serve-Serves}
use a2a_registry.System.Laws.{Reach-AllHeld}
use a2a_registry.Scenarios.Samples.{discovery, old_hosts, request_for, echo_request}
use a2a_registry.Scenarios.Directories.{
  Holds, directory_client, directory_client-StatusStore, directory_client-DirectoryStore,
}

abbrev no_agents : World Directory
no_agents = record { cluster = λ key. none; trace = [] }

abbrev decode_echo : String → Result String RegisterRequest
decode_echo body = ok echo_request

abbrev decode_nothing : String → Result String UpdateConfigRequest
decode_nothing body = err "EOF"

abbrev api : Server
api = record { addr = ":8082"; discovery_config = discovery }

-- The registration of an agent in an empty directory.
serve-Serves_example :
    (let x =
        serve ascii_std directory_client decode_echo decode_nothing 9 api
          (request_for "POST" "/api/v1/agents")
          no_agents in
      Serves ascii_std decode_echo 9
        (request_for "POST" "/api/v1/agents")
        no_agents.cluster
        (route "POST" "/api/v1/agents")
        x.0.status
        x.1.cluster)
serve-Serves_example =
    serve-Serves ascii_std directory_client (λ d. d) directory_client-DirectoryStore decode_echo
      decode_nothing 9 api (request_for "POST" "/api/v1/agents") no_agents

-- Then its first reconciliation, with no network behind its URL.
abbrev registered_world : World Directory
registered_world =
    (serve ascii_std directory_client decode_echo decode_nothing 9 api
      (request_for "POST" "/api/v1/agents") no_agents).1

abbrev echo_key : ObjectKey
echo_key = record { namespace = "outbound-agent"; name = "echo-agent" }

abbrev start : System Directory
start = record { world = no_agents; server = api }

abbrev checked_world : World Directory
checked_world =
    (reconcile ascii_std directory_client list_util old_hosts 10 echo_key registered_world).1

Reach-AllHeld_example : AllHeld directory_client-StatusStore IsCoherent checked_world.cluster
Reach-AllHeld_example =
    Reach-AllHeld directory_client Holds directory_client-StatusStore ascii_std list_util
      decode_echo decode_nothing start (record { world = checked_world; server = api })
      (step (step here (served 9 (request_for "POST" "/api/v1/agents")))
        (reconciled 10 old_hosts echo_key))
      λ s h. absurd (ground (arith, h.2))
