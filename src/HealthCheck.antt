-- ===== src/HealthCheck.antt =====
-- internal/healthcheck/checker.go.
use a2a_registry.Common.{ℕ, String, List, Bool, true, false, Option, none, some, Result, ok, err}
use a2a_registry.Api.{A2aAgent}
use a2a_registry.Platform.{AgentCard, Std, Effect}
use a2a_registry.Resolver.{Network, AuthConfig, ResolveResult, fetch_card_with_auth}

pub record HealthResult : Type 0 where
  pub healthy : Bool
  pub latency : ℕ
  pub card_hash : String
  pub card : Option AgentCard
  pub error : String

abbrev pub to_health_result : Result String ResolveResult → HealthResult
to_health_result (err e) = record {
  healthy = false;
  latency = 0;
  card_hash = "";
  card = none;
  error = e;
}
to_health_result (ok r) = record {
  healthy = true;
  latency = r.latency;
  card_hash = r.hash;
  card = some r.card;
  error = "";
}

module _ (std : Std) (net : Network) where
  -- The result, and the calls on the metrics.
  unfoldable pub check_with_auth : A2aAgent → Option AuthConfig → HealthResult × List Effect
  check_with_auth agent auth =
      let (r, effects) = fetch_card_with_auth std net agent.spec.url auth in
      (to_health_result r, effects)

  unfoldable pub check : A2aAgent → HealthResult × List Effect
  unfolding check_with_auth
  check agent = check_with_auth agent none
