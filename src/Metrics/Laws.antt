-- ===== src/Metrics/Laws.antt =====
-- The metrics are registered under different names.
use a2a_registry.Common.{List, [], ◌∷◌, ◌≡◌, refl, inl, inr, Any, Bool, true, not, any, ◌&&◌, ◌==◌}
use a2a_registry.Platform.{
  MetricCall, agent_count_reset, agent_count_inc, health_check_duration_observe,
  health_check_failures_total_inc, agent_card_fetch_errors_total_inc, registrations_total_inc,
  deregistrations_total_inc, api_request_duration_observe,
}
use a2a_registry.Metrics.{Metric, registered, metric_of}

-- Every metric that the program calls is registered.
pub metric_of-registered : (c : MetricCall) → Any (λ m. metric_of c ≡ m) registered
unfolding metric_of
metric_of-registered agent_count_reset = inl refl
metric_of-registered (agent_count_inc phase health) = inl refl
metric_of-registered (health_check_duration_observe d) = inr (inl refl)
metric_of-registered health_check_failures_total_inc = inr (inr (inl refl))
metric_of-registered agent_card_fetch_errors_total_inc = inr (inr (inr (inl refl)))
metric_of-registered registrations_total_inc = inr (inr (inr (inr (inl refl))))
metric_of-registered deregistrations_total_inc = inr (inr (inr (inr (inr (inl refl)))))
metric_of-registered (api_request_duration_observe endpoint method) =
    inr (inr (inr (inr (inr (inr (inl refl))))))

-- No two of the names are the same.
abbrev names_differ : List Metric → Bool
names_differ [] = true
names_differ (m ∷ ms) = not (any (λ n. m.name == n.name) ms) && names_differ ms

-- `MustRegister` meets no name twice.
pub registered-names_differ : names_differ registered ≡ true
registered-names_differ = refl
