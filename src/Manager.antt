-- ===== src/Manager.antt =====
-- cmd/manager/main.go: the process that sets up and starts the operator. The calls that it makes of
-- controller-runtime and client-go are recorded with their answers, which come from an unknown
-- environment; `flag.Parse` and `os.Getenv` are parameters.
pub mod Calls
pub mod Laws
use a2a_registry.Common.{ℕ, String, Bool, true, false, not, Option, none, some, ◌==◌, if◌then◌else◌}
use a2a_registry.Platform.{Std, KubeError, CommandLine, or_default}
use a2a_registry.Server.{new_server}
use a2a_registry.Manager.Calls.{
  Environment, Process, pure, ◌>>=◌, ◌>>◌, call, must, kind_agent, kind_registry, ControllerBuilder,
  ManagerOptions, AgentReconciler, get_config_or_die, new_clientset, get_namespace,
  create_namespace, new_manager, add_runnable, complete_agent_controller,
  complete_registry_controller, complete_webhook, add_healthz_check, add_readyz_check, start,
}

pub record Flags : Type 0 where
  pub metrics_addr : String
  pub probe_addr : String
  pub registry_api_addr : String
  pub enable_leader_election : Bool
  pub leader_election_id : String

unfoldable pub parse_flags : CommandLine → Flags
parse_flags args = record {
  metrics_addr = or_default ":8080" (args.string_flag "metrics-bind-address");
  probe_addr = or_default ":8081" (args.string_flag "health-probe-bind-address");
  registry_api_addr = or_default ":8082" (args.string_flag "registry-api-bind-address");
  enable_leader_election = or_default false (args.bool_flag "leader-elect");
  leader_election_id = or_default "a2a-registry" (args.string_flag "leader-election-id");
}

abbrev pub manager_options : Flags → ManagerOptions
manager_options f = record {
  metrics_bind_address = f.metrics_addr;
  health_probe_bind_address = f.probe_addr;
  leader_election = f.enable_leader_election;
  leader_election_id = f.leader_election_id;
}

-- The `SetupWithManager` of the two reconcilers.
abbrev pub agent_controller : ControllerBuilder
agent_controller = record { for_kind = kind_agent; generation_changed_predicate = true }

abbrev pub registry_controller : ControllerBuilder
registry_controller = record { for_kind = kind_registry; generation_changed_predicate = false }

-- `registry.NewAgentCardResolver(30 * time.Second)`, shared with the health checker.
abbrev pub agent_reconciler : AgentReconciler
agent_reconciler = record { resolver_timeout = 30; recorder = "a2aagent-controller" }

abbrev pub default_namespace : String
default_namespace = "outbound-agent"

module _ {W : Type 0} (E : Environment W) where
  -- `ctrl.GetConfigOrDie`.
  abbrev config_or_die : Process W (Unit {0})
  config_or_die = must E get_config_or_die

  abbrev create_missing : String → Option KubeError → Process W (Option KubeError)
  create_missing name none = pure none
  create_missing name (some e) =
      if e.is_not_found then call E (create_namespace name) else pure (some e)

  abbrev look_up : String → Option KubeError → Process W (Option KubeError)
  look_up name (some e) = pure (some e)
  look_up name none = do e ← call E (get_namespace name); create_missing name e

  -- The error that it returns, or none.
  unfoldable pub ensure_namespace : String → Process W (Option KubeError)
  unfolding ◌>>=◌
  ensure_namespace name = do config_or_die; e ← call E new_clientset; look_up name e

  module _ (std : Std) (args : CommandLine) (getenv : String → String) where
    abbrev setup_webhooks : Process W (Unit {0})
    setup_webhooks =
        if getenv "ENABLE_WEBHOOKS" == "false"
        then pure tt
        else must E (complete_webhook kind_agent) >> must E (complete_webhook kind_registry)

    -- The error of `ensureNamespace` is logged only.
    unfoldable pub main : Process W (Unit {0})
    unfolding ◌>>=◌ ensure_namespace parse_flags new_server
    main =
        let flags = parse_flags args in
        let api_server = new_server std flags.registry_api_addr in
        do
          ensure_namespace default_namespace
          config_or_die
          must E (new_manager (manager_options flags))
          must E (add_runnable api_server)
          must E (complete_agent_controller agent_controller agent_reconciler)
          must E (
              complete_registry_controller registry_controller
                (record { api_server = api_server; recorder = "a2aregistry-controller" }))
          setup_webhooks
          must E (add_healthz_check "healthz")
          must E (add_readyz_check "readyz")
          must E start
