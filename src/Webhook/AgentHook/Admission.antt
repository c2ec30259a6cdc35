-- ===== src/Webhook/AgentHook/Admission.antt =====
-- The defaulter and then the validator, in the order in which the API server calls them.
use a2a_registry.Common.{◌≤◌, [], true, Option, none, some, ◌≡◌, ◌≢◌, refl, arith, eq_iff, length}
use a2a_registry.Common.Int32.{pos, ◌<ℤ◌, ◌≤ℤ◌}
use a2a_registry.Api.{A2aAgent, A2aAgentSpec, HealthCheckConfig}
use a2a_registry.GoStrings.{split}
use a2a_registry.Platform.{Std}
use a2a_registry.Webhook.AgentHook.{
  default_agent, default_spec, default_health_check, validate_a2a_agent,
}
use a2a_registry.Webhook.AgentHook.Validation.{validate_a2a_agent_iff}
use a2a_registry.Webhook.AgentHook.Defaults.{default_agent-enabled}

-- What the reconciler may rely on in an agent that was admitted.
pub record Admitted (s : A2aAgentSpec) : Type 0 where
  pub enabled : s.enabled ≡ true
  pub version : 2 ≤ length (split b'.' s.protocol_version)
  pub config : HealthCheckConfig
  pub configured : s.health_check ≡ some config
  pub threshold : config.failure_threshold ≢ pos 0
  pub interval : config.interval_seconds ≢ pos 0
  pub at_least_ten : pos 0 <ℤ config.interval_seconds → pos 10 ≤ℤ config.interval_seconds

threshold_set : (o : Option HealthCheckConfig) → (default_health_check o).failure_threshold ≢ pos 0
threshold_set none e = ground arith
threshold_set (some h) e = ground arith

interval_set : (o : Option HealthCheckConfig) → (default_health_check o).interval_seconds ≢ pos 0
interval_set none e = ground arith
interval_set (some h) e = ground arith

version_set : (s : A2aAgentSpec) → (default_spec s).protocol_version ≢ ""
unfolding default_spec
version_set s e = ground (arith, eq_iff s.protocol_version "", eq_iff "1.0" "")

module _ (std : Std) where
  -- If the validator accepts an agent that has gone through the defaulter, then the agent is
  -- enabled, whatever was asked for, its protocol version has two parts, and it has a health check
  -- configuration whose threshold and interval are not 0, and whose interval is at least 10 if it
  -- is positive.
  pub validate-default_agent :
      (a : A2aAgent)
      → validate_a2a_agent std (default_agent a) ≡ []
      → Admitted (default_agent a).spec
  unfolding default_agent default_spec
  validate-default_agent a accepted =
      let valid = (validate_a2a_agent_iff std (default_agent a)).0 accepted in
      record {
        enabled = default_agent-enabled a valid.url.0;
        version = valid.protocol_version (version_set a.spec);
        config = default_health_check a.spec.health_check;
        configured = refl;
        threshold = threshold_set a.spec.health_check;
        interval = interval_set a.spec.health_check;
        at_least_ten = valid.health_check.0;
      }
