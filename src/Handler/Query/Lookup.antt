-- ===== src/Handler/Query/Lookup.antt =====
-- `GetAgent`, `GetAgentCard` and `WellKnown`.
use a2a_registry.Common.{String, ◌<>◌, [], ◌∷◌, false, Result, ok, err, ◌==◌, if◌then◌else◌}
use a2a_registry.Api.{ObjectKey, A2aAgent}
use a2a_registry.GoStrings.{trim_suffix}
use a2a_registry.Platform.{
  AgentCard, KubeClient, KubeError, new_agent_interface, transport_protocol_json_rpc,
}
use a2a_registry.Handler.Http.{Request, Response, Payload, Serve, entry, card, http_error, json}
use a2a_registry.Handler.Names.{extract_name_from_path}
use a2a_registry.Handler.Entry.{agent_to_entry, agent_to_card, or_default}

abbrev pub agents_path : String
agents_path = "/api/v1/agents/"

abbrev pub default_namespace : String
default_namespace = "outbound-agent"

abbrev pub key_in : String → Request → String → ObjectKey
key_in default r name = record { namespace = or_default (r.query "namespace") default; name = name }

abbrev pub agent_not_found : KubeError → Response
agent_not_found e = http_error 404 ("Agent not found: " <> e.message)

abbrev pub name_required : Response
name_required = http_error 400 "Agent name is required."

module _ {C Sel : Type 0} (K : KubeClient C Sel) where
  abbrev answer : (A2aAgent → Payload) → Result KubeError A2aAgent → Response
  answer show (err e) = agent_not_found e
  answer show (ok a) = json (show a)

  unfoldable pub get_agent : Request → Serve C
  get_agent r w =
      let name = extract_name_from_path r.path agents_path in
      if name == "" then (name_required, w) else (
        answer (λ a. entry (agent_to_entry a))
            (K.get_agent w.cluster (key_in default_namespace r name)),
        w,
      )

  unfoldable pub get_agent_card : Request → Serve C
  get_agent_card r w =
      let name = trim_suffix (extract_name_from_path r.path agents_path) "/card" in
      if name == "" then (name_required, w) else (
        answer (λ a. card (agent_to_card a))
            (K.get_agent w.cluster (key_in default_namespace r name)),
        w,
      )

abbrev registry_card : String → AgentCard
registry_card url = record {
  name = "A2A Registry";
  description = "Kubernetes-native A2A Agent Registry — discover and register A2A agents";
  version = "";
  supported_interfaces = new_agent_interface url transport_protocol_json_rpc ∷ [];
  capabilities = record { streaming = false; push_notifications = false };
  skills =
      record {
        id = "discovery";
        name = "Agent Discovery";
        description = "Discover registered A2A agents in the cluster.";
        tags = [];
        examples = [];
      }
      ∷ record {
        id = "search";
        name = "Agent Search";
        description = "Search agents by skills, tags, and capabilities.";
        tags = [];
        examples = [];
      }
      ∷ [];
  default_input_modes = "text" ∷ [];
  default_output_modes = "text" ∷ "application/json" ∷ [];
}

unfoldable pub well_known : {C : Type 0} → Request → Serve C
well_known r w =
    (json (card (registry_card ((if r.tls then "https" else "http") <> ("://" <> r.host)))), w)
