-- ===== src/Handler/Entry.antt =====
-- `agentToEntry` and `agentToCard` of handler.go.
use a2a_registry.Common.{String, [], ◌∷◌, map, ◌==◌, if◌then◌else◌}
use a2a_registry.Api.{
  A2aAgent, A2aAgentSkillSpec, Condition, ConditionStatus, condition_true, condition_false,
  condition_unknown,
}
use a2a_registry.Platform.{AgentCard, AgentSkill, new_agent_interface, transport_protocol_json_rpc}
use a2a_registry.Handler.Http.{RegistryEntry, SkillEntry, ConditionEntry}

abbrev pub status_text : ConditionStatus → String
status_text condition_true = "True"
status_text condition_false = "False"
status_text condition_unknown = "Unknown"

abbrev pub skill_entry : A2aAgentSkillSpec → SkillEntry
skill_entry s = record { id = s.id; name = s.name; description = s.description }

abbrev pub condition_entry : Condition → ConditionEntry
condition_entry c = record {
  type = c.type;
  status = status_text c.status;
  reason = c.reason;
  message = c.message;
}

abbrev pub or_default : String → String → String
or_default s d = if s == "" then d else s

unfoldable pub agent_to_entry : A2aAgent → RegistryEntry
agent_to_entry a = record {
  name = a.metadata.name;
  display_name = a.spec.name;
  description = a.spec.description;
  url = a.spec.url;
  version = a.spec.version;
  health = or_default a.status.health "Unknown";
  phase = or_default a.status.phase "Pending";
  tags = a.spec.tags;
  skills = map skill_entry a.spec.skills;
  namespace = a.metadata.namespace;
  conditions = map condition_entry a.status.conditions;
}

abbrev pub card_skill : A2aAgentSkillSpec → AgentSkill
card_skill s = record {
  id = s.id;
  name = s.name;
  description = s.description;
  tags = s.tags;
  examples = s.examples;
}

unfoldable pub agent_to_card : A2aAgent → AgentCard
agent_to_card a = record {
  name = a.spec.name;
  description = a.spec.description;
  version = a.spec.version;
  supported_interfaces = new_agent_interface a.spec.url transport_protocol_json_rpc ∷ [];
  capabilities = record {
    streaming = a.spec.capabilities.streaming;
    push_notifications = a.spec.capabilities.push_notifications;
  };
  skills = map card_skill a.spec.skills;
  default_input_modes = a.spec.default_input_modes;
  default_output_modes = a.spec.default_output_modes;
}
