-- ===== src/Scenarios/Samples.antt =====
-- A cluster in memory with two agents and a registry, requests, and a network of two hosts.
use a2a_registry.Common.{String, [], ◌∷◌, true, false, none, some, ok, err, ◌==◌, if◌then◌else◌}
use a2a_registry.Common.Int32.{pos}
use a2a_registry.Api.{
  ObjectMeta, A2aAgent, A2aAgentStatus, A2aAgentSkillSpec, Condition, condition_true, A2aRegistry,
  DiscoveryConfig, zero_status, unreachable, unhealthy,
}
use a2a_registry.Platform.{AgentCard, MemoryCluster, World}
use a2a_registry.Resolver.{Network}
use a2a_registry.HealthCheck.{HealthResult}
use a2a_registry.Handler.Http.{Request}
use a2a_registry.Handler.Register.{RegisterRequest}

abbrev pub meta_named : String → ObjectMeta
meta_named name = record {
  name = name;
  namespace = "outbound-agent";
  generation = pos 1;
  deletion_timestamp = none;
  finalizers = [];
}

abbrev pub greet : A2aAgentSkillSpec
greet = record { id = "greet"; name = "Greet"; description = ""; tags = []; examples = [] }

abbrev pub agent_at : String → String → A2aAgentStatus → A2aAgent
agent_at name url status = record {
  metadata = meta_named name;
  spec = record {
    name = name;
    description = "";
    version = "";
    url = url;
    capabilities = record { streaming = true; push_notifications = false };
    skills = greet ∷ [];
    authentication = none;
    default_input_modes = [];
    default_output_modes = [];
    provider = none;
    protocol_version = "1.0";
    tags = "demo" ∷ [];
    health_check =
        some (record {
          interval_seconds = pos 30;
          timeout_seconds = pos 5;
          failure_threshold = pos 2;
        });
    enabled = true;
  };
  status = status;
}

abbrev pub approved : Condition
approved = record {
  type = "Approved";
  status = condition_true;
  observed_generation = pos 1;
  last_transition_time = 7;
  reason = "Approved";
  message = "";
}

abbrev pub greeter : A2aAgent
greeter = agent_at "greeter" "http://greeter" (record zero_status { conditions = approved ∷ [] })

abbrev pub silent : A2aAgent
silent =
    agent_at "silent" "http://silent"
      (record zero_status { phase = unreachable; health = unhealthy; last_heartbeat = some 5 })

abbrev pub discovery : DiscoveryConfig
discovery = record { scope = "Namespace"; label_selector = ""; namespaces = "outbound-agent" ∷ [] }

abbrev pub strict : A2aRegistry
strict = record {
  metadata = meta_named "registry";
  spec = record {
    discovery = discovery;
    registration = record {
      require_approval = true;
      require_health_check = true;
      require_card_match = false;
    };
    health_check = record { interval_seconds = pos 60; timeout_seconds = pos 10 };
    api_server = record { port = pos 8082; bind_address = "0.0.0.0"; tls_cert_ref = none };
  };
  status = record { phase = ""; agent_count = pos 0; healthy_agents = pos 0; conditions = [] };
}

abbrev pub before : World MemoryCluster
before = record {
  cluster = record { agents = greeter ∷ silent ∷ []; registries = strict ∷ []; secrets = [] };
  trace = [];
}

-- The host of `greeter` serves its card at the older path; no other URL answers.
abbrev pub old_hosts : Network
old_hosts = record {
  new_request_error = λ url. none;
  do_get = λ url headers.
      if url == "http://greeter/.well-known/agent.json"
      then ok (record { status_code = 200; body = "greeter" })
      else err "connection refused";
  latency = λ url. 1000;
}

abbrev pub failed : HealthResult
failed = record { healthy = false; latency = 0; card_hash = ""; card = none; error = "refused" }

abbrev pub passed : HealthResult
passed = record { healthy = true; latency = 9; card_hash = "h"; card = none; error = "" }

abbrev pub request_for : String → String → Request
request_for method path = record {
  method = method;
  path = path;
  query = λ key. "";
  host = "registry";
  tls = false;
  body = "";
}

abbrev pub echo_request : RegisterRequest
echo_request = record {
  name = "Echo Agent";
  namespace = "";
  description = "";
  version = "1";
  url = "http://echo";
  skills = [];
  tags = [];
  streaming = false;
  push_notifications = false;
  protocol_version = "";
}

abbrev pub card_of_greeter : AgentCard
card_of_greeter = record {
  name = "greeter";
  description = "";
  version = "2";
  supported_interfaces = [];
  capabilities = record { streaming = true; push_notifications = false };
  skills = record { id = "greet"; name = "Greet"; description = ""; tags = []; examples = [] } ∷ [];
  default_input_modes = [];
  default_output_modes = [];
}
