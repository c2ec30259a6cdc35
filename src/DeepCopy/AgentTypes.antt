-- ===== src/DeepCopy/AgentTypes.antt =====
-- The deep copies of a2aagent_types.go. `*out = *in` is the starting point of each record update; the
-- memory of a copy is written once, after the values that go into it.
pub mod Parts
pub mod Laws
use a2a_registry.Common.{String}
use a2a_registry.Api.{Condition, A2aAgentCapabilities, A2aProviderInfo, HealthCheckConfig}
use a2a_registry.DeepCopy.Memory.{Ref, M, pure, ◌>>=◌}
use a2a_registry.DeepCopy.Structs.{
  TypeMeta, SkillStruct, AuthenticationStruct, SpecStruct, StatusStruct, ObjectStruct, AgentStruct,
  ListStruct,
}
use a2a_registry.DeepCopy.Cells.{
  Cell, a_strings, a_local_ref, a_time, a_conditions, a_skills, a_skill, a_authentication,
  a_capabilities, a_provider, a_health_check, a_spec, a_status, a_agent, a_agents, a_agent_list,
}
use a2a_registry.DeepCopy.Copies.{copy_ptr, copy_slice, as_object}

-- `DeepCopyInto` of metav1's types.
pub record MetaV1 (O L : Type 0) : Type 0 where
  pub copy_object_meta : O → M (Cell O L) O
  pub copy_list_meta : L → M (Cell O L) L
  pub copy_condition : Condition → M (Cell O L) Condition

module _ {O L : Type 0} where
  abbrev pub copy_strings : Ref → M (Cell O L) Ref
  copy_strings = copy_slice a_strings pure

  unfoldable pub copy_skill : SkillStruct → M (Cell O L) SkillStruct
  copy_skill s = do
    tags ← copy_strings s.tags
    examples ← copy_strings s.examples
    pure (record s { tags = tags; examples = examples })

  unfoldable pub copy_authentication : AuthenticationStruct → M (Cell O L) AuthenticationStruct
  copy_authentication s = do
    schemes ← copy_strings s.schemes
    secret_ref ← copy_ptr a_local_ref pure s.secret_ref
    pure (record s { schemes = schemes; secret_ref = secret_ref })

  abbrev pub copy_provider : A2aProviderInfo → M (Cell O L) A2aProviderInfo
  copy_provider = pure

  abbrev pub copy_health_check : HealthCheckConfig → M (Cell O L) HealthCheckConfig
  copy_health_check = pure

  abbrev pub copy_capabilities : A2aAgentCapabilities → M (Cell O L) A2aAgentCapabilities
  copy_capabilities = pure

  unfoldable pub copy_spec : SpecStruct → M (Cell O L) SpecStruct
  copy_spec s = do
    skills ← copy_slice a_skills copy_skill s.skills
    authentication ← copy_ptr a_authentication copy_authentication s.authentication
    input_modes ← copy_strings s.default_input_modes
    output_modes ← copy_strings s.default_output_modes
    provider ← copy_ptr a_provider copy_provider s.provider
    tags ← copy_strings s.tags
    health_check ← copy_ptr a_health_check copy_health_check s.health_check
    pure (record s {
      skills = skills;
      authentication = authentication;
      default_input_modes = input_modes;
      default_output_modes = output_modes;
      provider = provider;
      tags = tags;
      health_check = health_check;
    })

  module _ (V : MetaV1 O L) where
    unfoldable pub copy_status : StatusStruct → M (Cell O L) StatusStruct
    copy_status s = do
      last_heartbeat ← copy_ptr a_time pure s.last_heartbeat
      registered_at ← copy_ptr a_time pure s.registered_at
      conditions ← copy_slice a_conditions V.copy_condition s.conditions
      pure (record s {
        last_heartbeat = last_heartbeat;
        registered_at = registered_at;
        conditions = conditions;
      })

    unfoldable pub copy_agent : AgentStruct O → M (Cell O L) (AgentStruct O)
    copy_agent s = do
      metadata ← V.copy_object_meta s.metadata
      spec ← copy_spec s.spec
      status ← copy_status s.status
      pure (record s { metadata = metadata; spec = spec; status = status })

    unfoldable pub copy_agent_list : ListStruct L → M (Cell O L) (ListStruct L)
    copy_agent_list s = do
      metadata ← V.copy_list_meta s.metadata
      items ← copy_slice a_agents copy_agent s.items
      pure (record s { metadata = metadata; items = items })

    -- `DeepCopy`, and `DeepCopyObject`, which is the same pointer as an interface value.
    abbrev pub deep_copy_agent : Ref → M (Cell O L) Ref
    deep_copy_agent = copy_ptr a_agent copy_agent

    abbrev pub deep_copy_agent_object : Ref → M (Cell O L) Ref
    deep_copy_agent_object p = deep_copy_agent p >>= as_object

    abbrev pub deep_copy_agent_list : Ref → M (Cell O L) Ref
    deep_copy_agent_list = copy_ptr a_agent_list copy_agent_list

    abbrev pub deep_copy_agent_list_object : Ref → M (Cell O L) Ref
    deep_copy_agent_list_object p = deep_copy_agent_list p >>= as_object

    abbrev pub deep_copy_status : Ref → M (Cell O L) Ref
    deep_copy_status = copy_ptr a_status copy_status

  abbrev pub deep_copy_spec : Ref → M (Cell O L) Ref
  deep_copy_spec = copy_ptr a_spec copy_spec

  abbrev pub deep_copy_capabilities : Ref → M (Cell O L) Ref
  deep_copy_capabilities = copy_ptr a_capabilities copy_capabilities

  abbrev pub deep_copy_skill : Ref → M (Cell O L) Ref
  deep_copy_skill = copy_ptr a_skill copy_skill

  abbrev pub deep_copy_authentication : Ref → M (Cell O L) Ref
  deep_copy_authentication = copy_ptr a_authentication copy_authentication

  abbrev pub deep_copy_provider : Ref → M (Cell O L) Ref
  deep_copy_provider = copy_ptr a_provider copy_provider

  abbrev pub deep_copy_health_check : Ref → M (Cell O L) Ref
  deep_copy_health_check = copy_ptr a_health_check copy_health_check
