-- ===== src/Api/Agent.antt =====
-- a2aagent_types.go. A pointer that may be nil is an `Option`; nil and empty slices are both `[]`.
use a2a_registry.Common.{
  ◌≡◌, sym, ◌∙◌, refl, arith, false, ◌==◌, ◌≢◌, eq_iff, false≢true, String, Option, List, Bool,
}
use a2a_registry.Common.Int32.{ℤ}
use a2a_registry.Api.Meta.{Time, ObjectMeta, Condition}

-- Any text, as the Go type and the schema of the resource allow. The Go constants have names here,
-- and so has the zero value.
abbrev pub A2aAgentPhase : Type 0
A2aAgentPhase = String

abbrev pub unset_phase : A2aAgentPhase
unset_phase = ""

abbrev pub pending : A2aAgentPhase
pending = "Pending"

abbrev pub ready : A2aAgentPhase
ready = "Ready"

abbrev pub error : A2aAgentPhase
error = "Error"

abbrev pub unreachable : A2aAgentPhase
unreachable = "Unreachable"

abbrev pub A2aAgentHealth : Type 0
A2aAgentHealth = String

abbrev pub unset_health : A2aAgentHealth
unset_health = ""

abbrev pub healthy : A2aAgentHealth
healthy = "Healthy"

abbrev pub unhealthy : A2aAgentHealth
unhealthy = "Unhealthy"

abbrev pub unknown : A2aAgentHealth
unknown = "Unknown"

pub record A2aAgentCapabilities : Type 0 where
  pub streaming : Bool
  pub push_notifications : Bool

pub record A2aAgentSkillSpec : Type 0 where
  pub id : String
  pub name : String
  pub description : String
  pub tags : List String
  pub examples : List String

-- `secret_ref` is the name in the `LocalObjectReference`.
pub record A2aAuthentication : Type 0 where
  pub schemes : List String
  pub secret_ref : Option String

pub record A2aProviderInfo : Type 0 where
  pub organization : String
  pub url : String

pub record HealthCheckConfig : Type 0 where
  pub interval_seconds : ℤ
  pub timeout_seconds : ℤ
  pub failure_threshold : ℤ

pub record A2aAgentSpec : Type 0 where
  pub name : String
  pub description : String
  pub version : String
  pub url : String
  pub capabilities : A2aAgentCapabilities
  pub skills : List A2aAgentSkillSpec
  pub authentication : Option A2aAuthentication
  pub default_input_modes : List String
  pub default_output_modes : List String
  pub provider : Option A2aProviderInfo
  pub protocol_version : String
  pub tags : List String
  pub health_check : Option HealthCheckConfig
  pub enabled : Bool

pub record A2aAgentStatus : Type 0 where
  pub phase : A2aAgentPhase
  pub health : A2aAgentHealth
  pub message : String
  pub last_heartbeat : Option Time
  pub agent_card_hash : String
  pub observed_generation : ℤ
  pub consecutive_failures : ℤ
  pub registered_at : Option Time
  pub conditions : List Condition

pub record A2aAgent : Type 0 where
  pub metadata : ObjectMeta
  pub spec : A2aAgentSpec
  pub status : A2aAgentStatus

-- Go's `==` on the phases and on the health values.
abbrev pub same_phase : A2aAgentPhase → A2aAgentPhase → Bool
same_phase p q = p == q

abbrev pub is_healthy : A2aAgentHealth → Bool
is_healthy h = h == healthy

differ : (s t : String) → s == t ≡ false → s ≢ t
differ s t test e = false≢true (sym test ∙ (eq_iff s t).1 e)

pub error_ne_ready : error ≢ ready
error_ne_ready = differ error ready refl

pub unreachable_ne_ready : unreachable ≢ ready
unreachable_ne_ready = differ unreachable ready refl

pub pending_ne_ready : pending ≢ ready
pending_ne_ready = differ pending ready refl

pub unset_phase_ne_ready : unset_phase ≢ ready
unset_phase_ne_ready = differ unset_phase ready refl

pub error_ne_unreachable : error ≢ unreachable
error_ne_unreachable = differ error unreachable refl

pub error_ne_pending : error ≢ pending
error_ne_pending = differ error pending refl

pub pending_ne_unreachable : pending ≢ unreachable
pending_ne_unreachable = differ pending unreachable refl

pub unset_phase_ne_unreachable : unset_phase ≢ unreachable
unset_phase_ne_unreachable = differ unset_phase unreachable refl

pub unset_phase_ne_pending : unset_phase ≢ pending
unset_phase_ne_pending = differ unset_phase pending refl

pub healthy_ne_unhealthy : healthy ≢ unhealthy
healthy_ne_unhealthy = differ healthy unhealthy refl

pub healthy_ne_unknown : healthy ≢ unknown
healthy_ne_unknown = differ healthy unknown refl

pub unhealthy_ne_unknown : unhealthy ≢ unknown
unhealthy_ne_unknown = differ unhealthy unknown refl

pub unset_health_ne_healthy : unset_health ≢ healthy
unset_health_ne_healthy = differ unset_health healthy refl

pub unset_health_ne_unknown : unset_health ≢ unknown
unset_health_ne_unknown = differ unset_health unknown refl

pub unset_health_ne_unhealthy : unset_health ≢ unhealthy
unset_health_ne_unhealthy = differ unset_health unhealthy refl

-- The constants are different texts.
pub ruleset constants = (
  arith, error_ne_ready, unreachable_ne_ready, pending_ne_ready, unset_phase_ne_ready,
  error_ne_unreachable, error_ne_pending, pending_ne_unreachable, unset_phase_ne_unreachable,
  unset_phase_ne_pending, healthy_ne_unhealthy, healthy_ne_unknown, unhealthy_ne_unknown,
  unset_health_ne_healthy, unset_health_ne_unknown, unset_health_ne_unhealthy,
)

-- The zero value of the Go struct.
abbrev pub zero_status : A2aAgentStatus
zero_status = record {
  phase = unset_phase;
  health = unset_health;
  message = "";
  last_heartbeat = Option.none;
  agent_card_hash = "";
  observed_generation = ℤ.pos 0;
  consecutive_failures = ℤ.pos 0;
  registered_at = Option.none;
  conditions = List.[];
}
