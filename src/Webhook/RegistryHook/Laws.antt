-- ===== src/Webhook/RegistryHook/Laws.antt =====
-- What the validator of registries accepts, and what the defaulter sets.
use a2a_registry.Common.{[], ◌≡◌, ◌≢◌, ◌↔◌, ◌⊎◌, eq_iff, arith}
use a2a_registry.Common.Int32.{pos, ◌≤ℤ◌, ◌<ℤ◌}
use a2a_registry.Api.{A2aRegistry, A2aRegistrySpec, DiscoveryConfig}
use a2a_registry.GoStrings.{to_lower}
use a2a_registry.Platform.{Std}
use a2a_registry.Webhook.AgentHook.Validation.{append-eq-nil_iff}
use a2a_registry.Webhook.RegistryHook.{scope_errors, validate_a2a_registry}

module _ (std : Std) where
  -- A scope is empty, or in any case "cluster", or "namespace" with a list of namespaces.
  abbrev pub ValidScope : DiscoveryConfig → Type 0
  ValidScope d =
      (d.scope ≡ "")
      ⊎ (to_lower std d.scope ≡ "cluster")
      ⊎ ((to_lower std d.scope ≡ "namespace") × (d.namespaces ≢ []))

  pub record ValidRegistrySpec (s : A2aRegistrySpec) : Type 0 where
    pub scope : ValidScope s.discovery
    pub port :
        s.api_server.port ≢ pos 0 → (pos 1 ≤ℤ s.api_server.port) × (s.api_server.port ≤ℤ pos 65535)
    pub timeout :
        pos 0 <ℤ s.health_check.timeout_seconds
        → pos 0 <ℤ s.health_check.interval_seconds
        → s.health_check.timeout_seconds ≤ℤ s.health_check.interval_seconds

  scope_errors_iff : (d : DiscoveryConfig) → (scope_errors std d ≡ []) ↔ ValidScope d
  unfolding scope_errors
  scope_errors_iff d = ground (
    arith,
    eq_iff d.scope "",
    eq_iff (to_lower std d.scope) "cluster",
    eq_iff (to_lower std d.scope) "namespace",
    eq_iff "cluster" "namespace",
  )

  -- The validator accepts exactly the valid specifications: a scope that is empty, "cluster" in
  -- any case, or "namespace" in any case with at least one namespace; a port from 1 to 65535, or
  -- 0; and a timeout of at most the interval where both are positive.
  pub validate_a2a_registry_iff :
      (g : A2aRegistry) → (validate_a2a_registry std g ≡ []) ↔ ValidRegistrySpec g.spec
  unfolding validate_a2a_registry
  validate_a2a_registry_iff g = ground (
    arith,
    append-eq-nil_iff (scope_errors std g.spec.discovery) _,
    scope_errors_iff g.spec.discovery,
  )
