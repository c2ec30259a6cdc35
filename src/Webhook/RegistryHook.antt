-- ===== src/Webhook/RegistryHook.antt =====
-- a2aregistry_webhook.go.
pub mod Admission
pub mod Laws
use a2a_registry.Common.{
  String, ◌<>◌, List, [], ◌∷◌, ◌++◌, Bool, true, false, not, ◌&&◌, ◌||◌, ◌==◌, if◌then◌else◌,
}
use a2a_registry.Common.Int32.{pos, ltb_ℤ, eqb_ℤ}
use a2a_registry.Api.{A2aRegistry, A2aRegistrySpec, DiscoveryConfig, HealthCheckDefaults}
use a2a_registry.GoStrings.{to_lower}
use a2a_registry.Platform.{Std}
use a2a_registry.Webhook.AgentHook.{complain}

abbrev is_empty : List String → Bool
is_empty [] = true
is_empty (_ ∷ _) = false

module _ (std : Std) where
  unfoldable pub scope_errors : DiscoveryConfig → List String
  scope_errors d =
      let scope = to_lower std d.scope in
      if d.scope == ""
      then []
      else complain (not (scope == "cluster") && not (scope == "namespace"))
          ("spec.discovery.scope must be 'Cluster' or 'Namespace', got '" <> (d.scope <> "'"))
        ++ complain (scope == "namespace" && is_empty d.namespaces)
            "spec.discovery.namespaces must not be empty when scope is 'Namespace'"

  -- The messages of `validateA2ARegistry`.
  unfoldable pub validate_a2a_registry : A2aRegistry → List String
  validate_a2a_registry g =
      scope_errors g.spec.discovery
      ++ (complain
            (not (eqb_ℤ g.spec.api_server.port (pos 0))
              && (ltb_ℤ g.spec.api_server.port (pos 1) || ltb_ℤ (pos 65535) g.spec.api_server.port))
            ("spec.apiServer.port must be between 1 and 65535, got "
              <> std.format_int g.spec.api_server.port)
          ++ complain
              (ltb_ℤ (pos 0) g.spec.health_check.timeout_seconds
                && ltb_ℤ (pos 0) g.spec.health_check.interval_seconds
                && ltb_ℤ g.spec.health_check.interval_seconds g.spec.health_check.timeout_seconds)
              "spec.healthCheck.timeoutSeconds must not exceed intervalSeconds")

  -- What the webhook answers to a create, an update and a delete.
  unfoldable pub validate_create : A2aRegistry → List String
  unfolding validate_a2a_registry
  validate_create g = validate_a2a_registry g

  unfoldable pub validate_update : A2aRegistry → A2aRegistry → List String
  unfolding validate_a2a_registry
  validate_update old new = validate_a2a_registry new

  unfoldable pub validate_delete : A2aRegistry → List String
  validate_delete g = []

-- `Default`.
unfoldable pub default_registry : A2aRegistry → A2aRegistry
default_registry g = record g {
  spec = record g.spec {
    discovery = record g.spec.discovery {
      scope = if g.spec.discovery.scope == "" then "Cluster" else g.spec.discovery.scope;
    };
    api_server = record g.spec.api_server {
      port = if eqb_ℤ g.spec.api_server.port (pos 0) then pos 8082 else g.spec.api_server.port;
      bind_address =
          if g.spec.api_server.bind_address == ""
          then "0.0.0.0"
          else g.spec.api_server.bind_address;
    };
    health_check = record g.spec.health_check {
      interval_seconds =
          if eqb_ℤ g.spec.health_check.interval_seconds (pos 0)
          then pos 60
          else g.spec.health_check.interval_seconds;
      timeout_seconds =
          if eqb_ℤ g.spec.health_check.timeout_seconds (pos 0)
          then pos 10
          else g.spec.health_check.timeout_seconds;
    };
  };
}
