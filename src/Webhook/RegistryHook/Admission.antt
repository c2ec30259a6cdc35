-- ===== src/Webhook/RegistryHook/Admission.antt =====
-- The defaulter of registries and then the validator, in the order in which the API server calls
-- them.
use a2a_registry.Common.{[], ◌≡◌, ◌↔◌, if◌then◌else◌, ◌==◌, arith, eq_iff}
use a2a_registry.Common.Int32.{pos, ◌≤ℤ◌, ◌<ℤ◌}
use a2a_registry.Api.{A2aRegistry, DiscoveryConfig, HealthCheckDefaults}
use a2a_registry.GoStrings.{to_lower}
use a2a_registry.Platform.{Std}
use a2a_registry.Webhook.RegistryHook.{validate_a2a_registry, default_registry}
use a2a_registry.Webhook.RegistryHook.Laws.{
  ValidScope, ValidRegistrySpec, validate_a2a_registry_iff,
}

-- What the defaults of the health check ask of the values that are set: a timeout of at most 60
-- where there is no interval, and an interval of at least 10 where there is no timeout.
pub record FitsDefaults (h : HealthCheckDefaults) : Type 0 where
  pub timeout :
      h.interval_seconds ≡ pos 0 → pos 0 <ℤ h.timeout_seconds → h.timeout_seconds ≤ℤ pos 60
  pub interval :
      h.timeout_seconds ≡ pos 0 → pos 0 <ℤ h.interval_seconds → pos 10 ≤ℤ h.interval_seconds

module _ (std : Std) (lowers : to_lower std "Cluster" ≡ "cluster") where
  ValidScope-default :
      (d : DiscoveryConfig)
      → ValidScope std (record d { scope = if d.scope == "" then "Cluster" else d.scope })
        ↔ ValidScope std d
  ValidScope-default d = ground (arith, eq_iff d.scope "", eq_iff "Cluster" "", lowers)

  ValidRegistrySpec-default_registry :
      (g : A2aRegistry)
      → ValidRegistrySpec std (default_registry g).spec
        ↔ (ValidRegistrySpec std g.spec × FitsDefaults g.spec.health_check)
  unfolding default_registry
  ValidRegistrySpec-default_registry g = ground (arith, ValidScope-default g.spec.discovery)

  -- If lower-casing makes "cluster" of "Cluster": what has gone through the defaulter is accepted
  -- exactly if the registry would be accepted as it was given and fits the defaults, which means
  -- that the timeout is at most 60 if it is positive and the interval is 0, and the interval at
  -- least 10 if it is positive and the timeout is 0.
  pub validate-default_registry :
      (g : A2aRegistry)
      → (validate_a2a_registry std (default_registry g) ≡ [])
        ↔ ((validate_a2a_registry std g ≡ []) × FitsDefaults g.spec.health_check)
  validate-default_registry g = ground (
    arith,
    validate_a2a_registry_iff std g,
    validate_a2a_registry_iff std (default_registry g),
    ValidRegistrySpec-default_registry g,
  )
