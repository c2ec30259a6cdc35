-- ===== src/Webhook/AgentHook/Defaults.antt =====
-- What the defaulter of agents sets.
use a2a_registry.Common.{true, Option, none, some, ◌≡◌, refl, ◌≢◌, eq_iff, arith, ap}
use a2a_registry.Api.{A2aAgent, A2aAgentSpec, HealthCheckConfig}
use a2a_registry.Webhook.AgentHook.{default_agent, default_spec, default_health_check}

default_health_check_idem :
    (o : Option HealthCheckConfig)
    → default_health_check (some (default_health_check o)) ≡ default_health_check o
default_health_check_idem none = refl
default_health_check_idem (some h) = ground arith

default_spec_idem : (s : A2aAgentSpec) → default_spec (default_spec s) ≡ default_spec s
unfolding default_spec
default_spec_idem s =
    ground (
      arith,
      default_health_check_idem s.health_check,
      eq_iff s.protocol_version "",
      eq_iff s.url "",
    )

-- The defaulter changes nothing more when it runs again.
default_agent_idem : (a : A2aAgent) → default_agent (default_agent a) ≡ default_agent a
unfolding default_agent
default_agent_idem a = ap (λ s. record a { spec = s }) (default_spec_idem a.spec)

-- Whatever the request says, an agent with a URL is enabled after the defaulter.
pub default_agent-enabled : (a : A2aAgent) → a.spec.url ≢ "" → (default_agent a).spec.enabled ≡ true
unfolding default_agent
default_agent-enabled a h = ground (arith, eq_iff a.spec.url "")
