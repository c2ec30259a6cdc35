-- ===== src/Metrics.antt =====
-- internal/metrics/metrics.go: the metrics, their registration, and what a call on them is made of.
pub mod Laws
use a2a_registry.Common.{String, List, [], ◌∷◌}
use a2a_registry.Platform.{
  MetricCall, agent_count_reset, agent_count_inc, health_check_duration_observe,
  health_check_failures_total_inc, agent_card_fetch_errors_total_inc, registrations_total_inc,
  deregistrations_total_inc, api_request_duration_observe,
}

-- A histogram has Prometheus's default buckets.
pub data MetricType : Type 0 where
  gauge counter histogram : MetricType

pub record Metric : Type 0 where
  pub type : MetricType
  pub name : String
  pub help : String
  pub labels : List String

abbrev pub agent_count : Metric
agent_count = record {
  type = gauge;
  name = "a2a_registry_agent_count";
  help = "Number of registered A2A agents.";
  labels = "phase" ∷ "health" ∷ [];
}

abbrev pub health_check_duration : Metric
health_check_duration = record {
  type = histogram;
  name = "a2a_registry_health_check_duration_seconds";
  help = "Duration of agent health checks in seconds.";
  labels = [];
}

abbrev pub health_check_failures_total : Metric
health_check_failures_total = record {
  type = counter;
  name = "a2a_registry_health_check_failures_total";
  help = "Total number of failed agent health checks.";
  labels = [];
}

abbrev pub agent_card_fetch_errors_total : Metric
agent_card_fetch_errors_total = record {
  type = counter;
  name = "a2a_registry_agent_card_fetch_errors_total";
  help = "Total number of errors fetching agent cards from agent endpoints.";
  labels = [];
}

abbrev pub registrations_total : Metric
registrations_total = record {
  type = counter;
  name = "a2a_registry_registrations_total";
  help = "Total number of agent registrations.";
  labels = [];
}

abbrev pub deregistrations_total : Metric
deregistrations_total = record {
  type = counter;
  name = "a2a_registry_deregistrations_total";
  help = "Total number of agent deregistrations.";
  labels = [];
}

abbrev pub api_request_duration : Metric
api_request_duration = record {
  type = histogram;
  name = "a2a_registry_api_request_duration_seconds";
  help = "Duration of registry API requests in seconds.";
  labels = "endpoint" ∷ "method" ∷ [];
}

-- The arguments of `MustRegister`, which panics at a name that it has already.
abbrev pub registered : List Metric
registered =
    agent_count ∷ health_check_duration ∷ health_check_failures_total
    ∷ agent_card_fetch_errors_total ∷ registrations_total ∷ deregistrations_total
    ∷ api_request_duration ∷ []

unfoldable pub metric_of : MetricCall → Metric
metric_of agent_count_reset = agent_count
metric_of (agent_count_inc phase health) = agent_count
metric_of (health_check_duration_observe d) = health_check_duration
metric_of health_check_failures_total_inc = health_check_failures_total
metric_of agent_card_fetch_errors_total_inc = agent_card_fetch_errors_total
metric_of registrations_total_inc = registrations_total
metric_of deregistrations_total_inc = deregistrations_total
metric_of (api_request_duration_observe endpoint method) = api_request_duration
