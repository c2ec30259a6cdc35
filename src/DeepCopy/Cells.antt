-- ===== src/DeepCopy/Cells.antt =====
-- The cells of the heap of api/v1: one constructor for each Go type that stands behind a pointer or
-- in an array.
use a2a_registry.Common.{String, none, some, List, refl}
use a2a_registry.Api.{
  Time, Condition, A2aAgentCapabilities, A2aProviderInfo, HealthCheckConfig, RegistrationConfig,
  HealthCheckDefaults,
}
use a2a_registry.DeepCopy.Memory.{Kind}
use a2a_registry.DeepCopy.Structs.{
  SkillStruct, AuthenticationStruct, SpecStruct, StatusStruct, DiscoveryStruct, ApiServerStruct,
  RegistrySpecStruct, RegistryStatusStruct, AgentStruct, RegistryStruct, ListStruct,
}

-- What a cell holds: a struct behind a pointer, or the array of a slice.
pub data Cell (O L : Type 0) : Type 0 where
  strings_cell : List String → Cell O L
  local_ref_cell : String → Cell O L
  time_cell : Time → Cell O L
  conditions_cell : List Condition → Cell O L
  skills_cell : List SkillStruct → Cell O L
  skill_cell : SkillStruct → Cell O L
  authentication_cell : AuthenticationStruct → Cell O L
  capabilities_cell : A2aAgentCapabilities → Cell O L
  provider_cell : A2aProviderInfo → Cell O L
  health_check_cell : HealthCheckConfig → Cell O L
  spec_cell : SpecStruct → Cell O L
  status_cell : StatusStruct → Cell O L
  agent_cell : AgentStruct O → Cell O L
  agents_cell : List (AgentStruct O) → Cell O L
  agent_list_cell : ListStruct L → Cell O L
  discovery_cell : DiscoveryStruct → Cell O L
  api_server_cell : ApiServerStruct → Cell O L
  registration_cell : RegistrationConfig → Cell O L
  health_defaults_cell : HealthCheckDefaults → Cell O L
  registry_spec_cell : RegistrySpecStruct → Cell O L
  registry_status_cell : RegistryStatusStruct → Cell O L
  registry_cell : RegistryStruct O → Cell O L
  registries_cell : List (RegistryStruct O) → Cell O L
  registry_list_cell : ListStruct L → Cell O L

module _ {O L : Type 0} where
  abbrev pub a_strings : Kind (Cell O L) (List String)
  a_strings = record {
    put = strings_cell;
    get = λ c. elim c [ strings_cell x ↦ some x | _ ↦ none ];
    got = λ x. refl;
  }

  abbrev pub a_local_ref : Kind (Cell O L) (String)
  a_local_ref = record {
    put = local_ref_cell;
    get = λ c. elim c [ local_ref_cell x ↦ some x | _ ↦ none ];
    got = λ x. refl;
  }

  abbrev pub a_time : Kind (Cell O L) (Time)
  a_time = record {
    put = time_cell;
    get = λ c. elim c [ time_cell x ↦ some x | _ ↦ none ];
    got = λ x. refl;
  }

  abbrev pub a_conditions : Kind (Cell O L) (List Condition)
  a_conditions = record {
    put = conditions_cell;
    get = λ c. elim c [ conditions_cell x ↦ some x | _ ↦ none ];
    got = λ x. refl;
  }

  abbrev pub a_skills : Kind (Cell O L) (List SkillStruct)
  a_skills = record {
    put = skills_cell;
    get = λ c. elim c [ skills_cell x ↦ some x | _ ↦ none ];
    got = λ x. refl;
  }

  abbrev pub a_skill : Kind (Cell O L) (SkillStruct)
  a_skill = record {
    put = skill_cell;
    get = λ c. elim c [ skill_cell x ↦ some x | _ ↦ none ];
    got = λ x. refl;
  }

  abbrev pub a_authentication : Kind (Cell O L) (AuthenticationStruct)
  a_authentication = record {
    put = authentication_cell;
    get = λ c. elim c [ authentication_cell x ↦ some x | _ ↦ none ];
    got = λ x. refl;
  }

  abbrev pub a_capabilities : Kind (Cell O L) (A2aAgentCapabilities)
  a_capabilities = record {
    put = capabilities_cell;
    get = λ c. elim c [ capabilities_cell x ↦ some x | _ ↦ none ];
    got = λ x. refl;
  }

  abbrev pub a_provider : Kind (Cell O L) (A2aProviderInfo)
  a_provider = record {
    put = provider_cell;
    get = λ c. elim c [ provider_cell x ↦ some x | _ ↦ none ];
    got = λ x. refl;
  }

  abbrev pub a_health_check : Kind (Cell O L) (HealthCheckConfig)
  a_health_check = record {
    put = health_check_cell;
    get = λ c. elim c [ health_check_cell x ↦ some x | _ ↦ none ];
    got = λ x. refl;
  }

  abbrev pub a_spec : Kind (Cell O L) (SpecStruct)
  a_spec = record {
    put = spec_cell;
    get = λ c. elim c [ spec_cell x ↦ some x | _ ↦ none ];
    got = λ x. refl;
  }

  abbrev pub a_status : Kind (Cell O L) (StatusStruct)
  a_status = record {
    put = status_cell;
    get = λ c. elim c [ status_cell x ↦ some x | _ ↦ none ];
    got = λ x. refl;
  }

  abbrev pub a_agent : Kind (Cell O L) (AgentStruct O)
  a_agent = record {
    put = agent_cell;
    get = λ c. elim c [ agent_cell x ↦ some x | _ ↦ none ];
    got = λ x. refl;
  }

  abbrev pub a_agents : Kind (Cell O L) (List (AgentStruct O))
  a_agents = record {
    put = agents_cell;
    get = λ c. elim c [ agents_cell x ↦ some x | _ ↦ none ];
    got = λ x. refl;
  }

  abbrev pub a_agent_list : Kind (Cell O L) (ListStruct L)
  a_agent_list = record {
    put = agent_list_cell;
    get = λ c. elim c [ agent_list_cell x ↦ some x | _ ↦ none ];
    got = λ x. refl;
  }

  abbrev pub a_discovery : Kind (Cell O L) (DiscoveryStruct)
  a_discovery = record {
    put = discovery_cell;
    get = λ c. elim c [ discovery_cell x ↦ some x | _ ↦ none ];
    got = λ x. refl;
  }

  abbrev pub a_api_server : Kind (Cell O L) (ApiServerStruct)
  a_api_server = record {
    put = api_server_cell;
    get = λ c. elim c [ api_server_cell x ↦ some x | _ ↦ none ];
    got = λ x. refl;
  }

  abbrev pub a_registration : Kind (Cell O L) (RegistrationConfig)
  a_registration = record {
    put = registration_cell;
    get = λ c. elim c [ registration_cell x ↦ some x | _ ↦ none ];
    got = λ x. refl;
  }

  abbrev pub a_health_defaults : Kind (Cell O L) (HealthCheckDefaults)
  a_health_defaults = record {
    put = health_defaults_cell;
    get = λ c. elim c [ health_defaults_cell x ↦ some x | _ ↦ none ];
    got = λ x. refl;
  }

  abbrev pub a_registry_spec : Kind (Cell O L) (RegistrySpecStruct)
  a_registry_spec = record {
    put = registry_spec_cell;
    get = λ c. elim c [ registry_spec_cell x ↦ some x | _ ↦ none ];
    got = λ x. refl;
  }

  abbrev pub a_registry_status : Kind (Cell O L) (RegistryStatusStruct)
  a_registry_status = record {
    put = registry_status_cell;
    get = λ c. elim c [ registry_status_cell x ↦ some x | _ ↦ none ];
    got = λ x. refl;
  }

  abbrev pub a_registry : Kind (Cell O L) (RegistryStruct O)
  a_registry = record {
    put = registry_cell;
    get = λ c. elim c [ registry_cell x ↦ some x | _ ↦ none ];
    got = λ x. refl;
  }

  abbrev pub a_registries : Kind (Cell O L) (List (RegistryStruct O))
  a_registries = record {
    put = registries_cell;
    get = λ c. elim c [ registries_cell x ↦ some x | _ ↦ none ];
    got = λ x. refl;
  }

  abbrev pub a_registry_list : Kind (Cell O L) (ListStruct L)
  a_registry_list = record {
    put = registry_list_cell;
    get = λ c. elim c [ registry_list_cell x ↦ some x | _ ↦ none ];
    got = λ x. refl;
  }
