-- ===== src/Scenarios/Copies.antt =====
-- The theorems on deep copies at a heap with one list of agents and one of registries.
use a2a_registry.Common.{
  String, List, [], ◌∷◌, Option, none, some, true, false, ◌≡◌, refl, arith, inl, inr, nat_eq,
  if◌then◌else◌,
}
use a2a_registry.Common.Int32.{pos}
use a2a_registry.Api.{ObjectMeta, A2aAgent, A2aRegistry, unreachable, unhealthy}
use a2a_registry.DeepCopy.Memory.{Ref, nil, Heap, Kind, Sound, pure}
use a2a_registry.DeepCopy.Structs.{TypeMeta, SkillStruct, AgentStruct, RegistryStruct, ListStruct}
use a2a_registry.DeepCopy.Cells.{
  Cell, strings_cell, skills_cell, time_cell, agents_cell, agent_list_cell, registries_cell,
  registry_list_cell, a_agent_list, a_registry_list, a_agents, a_registries, a_skills, a_strings,
  a_time, a_conditions,
}
use a2a_registry.DeepCopy.Copies.{Represents, Plain, Pointee, SliceRep, pure-IsCopier}
use a2a_registry.DeepCopy.AgentTypes.{MetaV1, deep_copy_agent_list}
use a2a_registry.DeepCopy.AgentTypes.Laws.{LawfulMetaV1, ListOf, AgentListRep}
use a2a_registry.DeepCopy.AgentTypes.Parts.{SkillRep}
use a2a_registry.DeepCopy.RegistryTypes.{deep_copy_registry_list}
use a2a_registry.DeepCopy.RegistryTypes.Laws.{RegistryListRep}
use a2a_registry.DeepCopy.Independence.{
  Independent, deep_copy_agent_list-Independent, deep_copy_registry_list-Independent,
}
use a2a_registry.Scenarios.Samples.{greet, meta_named, silent, strict}

-- Metadata with no references; a list's metadata is its resource version.
abbrev plain_meta : MetaV1 ObjectMeta String
plain_meta = record { copy_object_meta = pure; copy_list_meta = pure; copy_condition = pure }

plain_lawful : LawfulMetaV1 plain_meta Plain Plain
plain_lawful = record {
  object_meta = pure-IsCopier;
  list_meta = pure-IsCopier;
  condition = pure-IsCopier;
}

abbrev typed : String → TypeMeta
typed kind = record { kind = kind; api_version = "a2a.io/v1" }

-- `silent`, without its health check configuration and with its parts at 1, 2 and 3.
abbrev silent_struct : AgentStruct ObjectMeta
silent_struct = record {
  type_meta = typed "A2AAgent";
  metadata = meta_named "silent";
  spec = record {
    name = "silent";
    description = "";
    version = "";
    url = "http://silent";
    capabilities = silent.spec.capabilities;
    skills = 2;
    authentication = nil;
    default_input_modes = nil;
    default_output_modes = nil;
    provider = nil;
    protocol_version = "1.0";
    tags = 1;
    health_check = nil;
    enabled = true;
  };
  status = record {
    phase = unreachable;
    health = unhealthy;
    message = "";
    last_heartbeat = 3;
    agent_card_hash = "";
    observed_generation = pos 0;
    consecutive_failures = pos 0;
    registered_at = nil;
    conditions = nil;
  };
}

abbrev greet_struct : SkillStruct
greet_struct = record { id = "greet"; name = "Greet"; description = ""; tags = nil; examples = nil }

abbrev strict_struct : RegistryStruct ObjectMeta
strict_struct = record {
  type_meta = typed "A2ARegistry";
  metadata = meta_named "registry";
  spec = record {
    discovery = record { scope = "Namespace"; label_selector = ""; namespaces = 6 };
    registration = strict.spec.registration;
    health_check = strict.spec.health_check;
    api_server = record { port = pos 8082; bind_address = "0.0.0.0"; tls_cert_ref = nil };
  };
  status = record { phase = ""; agent_count = pos 0; healthy_agents = pos 0; conditions = nil };
}

abbrev list_struct : String → Ref → ListStruct String
list_struct kind items = record { type_meta = typed kind; metadata = "7"; items = items }

abbrev cells : Ref → Option (Cell ObjectMeta String)
cells p =
    if nat_eq p 1
    then some (strings_cell ("demo" ∷ []))
    else if nat_eq p 2
    then some (skills_cell (greet_struct ∷ []))
    else if nat_eq p 3
    then some (time_cell 5)
    else if nat_eq p 4
    then some (agents_cell (silent_struct ∷ []))
    else if nat_eq p 5
    then some (agent_list_cell (list_struct "A2AAgentList" 4))
    else if nat_eq p 6
    then some (strings_cell ("outbound-agent" ∷ []))
    else if nat_eq p 7
    then some (registries_cell (strict_struct ∷ []))
    else if nat_eq p 8
    then some (registry_list_cell (list_struct "A2ARegistryList" 7))
    else none

abbrev memory : Heap (Cell ObjectMeta String)
memory = record { next = 9; cell = cells }

memory-Sound : Sound memory
memory-Sound = record { started = omega arith; free = λ p l. ground arith }

abbrev agent_list : ListOf String A2aAgent
agent_list = record {
  type_meta = typed "A2AAgentList";
  metadata = "7";
  items =
      record {
        type_meta = typed "A2AAgent";
        object = record silent { spec = record silent.spec { health_check = none } };
      }
      ∷ [];
}

abbrev registry_list : ListOf String A2aRegistry
registry_list = record {
  type_meta = typed "A2ARegistryList";
  metadata = "7";
  items = record { type_meta = typed "A2ARegistry"; object = strict } ∷ [];
}

-- What a cell of `memory` that a pointer leads to gives.
pointing :
    {A V : Type 0} {R : Represents (Cell ObjectMeta String) A V}
    (k : Kind (Cell ObjectMeta String) A) (p : Ref) (a : A) (v : V)
    → nat_eq p nil ≡ false
    → cells p ≡ some (k.put a)
    → R 0 memory a v
    → Pointee R k 0 memory p v
pointing k p a v there here rep = record {
  not_nil = λ e. ground (arith, there, e);
  above = omega arith;
  target = a;
  here = here;
  rep = rep;
}

abbrev no_slice :
    {A V : Type 0} {R : Represents (Cell ObjectMeta String) A V}
    (k : Kind (Cell ObjectMeta String) (List A))
    → SliceRep R k 0 memory nil []
no_slice k = inl (refl, refl)

skill_at : SkillRep 0 memory greet_struct greet
skill_at = record {
  id = refl;
  name = refl;
  description = refl;
  tags = no_slice a_strings;
  examples = no_slice a_strings;
}

agents_at : Pointee (AgentListRep plain_lawful) a_agent_list 0 memory 5 agent_list
agents_at = pointing a_agent_list 5 (list_struct "A2AAgentList" 4) agent_list refl refl (record {
  type_meta = refl;
  metadata = refl;
  items = inr (
      pointing a_agents 4 (silent_struct ∷ []) agent_list.items refl refl (
        record {
          type_meta = refl;
          metadata = refl;
          spec = record {
            name = refl;
            description = refl;
            version = refl;
            url = refl;
            capabilities = refl;
            skills =
                inr (pointing a_skills 2 (greet_struct ∷ []) (greet ∷ []) refl refl (skill_at, tt));
            authentication = refl;
            default_input_modes = no_slice a_strings;
            default_output_modes = no_slice a_strings;
            provider = refl;
            protocol_version = refl;
            tags = inr (pointing a_strings 1 ("demo" ∷ []) ("demo" ∷ []) refl refl (refl, tt));
            health_check = refl;
            enabled = refl;
          };
          status = record {
            phase = refl;
            health = refl;
            message = refl;
            last_heartbeat = pointing a_time 3 5 5 refl refl refl;
            agent_card_hash = refl;
            observed_generation = refl;
            consecutive_failures = refl;
            registered_at = refl;
            conditions = no_slice a_conditions;
          };
        },
        tt,
      ));
})

registries_at : Pointee (RegistryListRep plain_lawful) a_registry_list 0 memory 8 registry_list
registries_at =
    pointing a_registry_list 8 (list_struct "A2ARegistryList" 7) registry_list refl refl (record {
      type_meta = refl;
      metadata = refl;
      items = inr (
          pointing a_registries 7 (strict_struct ∷ []) registry_list.items refl refl (
            record {
              type_meta = refl;
              metadata = refl;
              spec = record {
                discovery = record {
                  scope = refl;
                  label_selector = refl;
                  namespaces = inr (
                      pointing a_strings 6 ("outbound-agent" ∷ []) ("outbound-agent" ∷ []) refl refl
                        (refl, tt));
                };
                registration = refl;
                health_check = refl;
                api_server = record { port = refl; bind_address = refl; tls_cert_ref = refl };
              };
              status = record {
                phase = refl;
                agent_count = refl;
                healthy_agents = refl;
                conditions = no_slice a_conditions;
              };
            },
            tt,
          ));
    })

deep_copy_agent_list-Independent_example :
    (deep_copy_agent_list plain_meta nil memory ≡ some (nil, memory))
    × ((q : Ref) × (h' : Heap (Cell ObjectMeta String)) × (deep_copy_agent_list plain_meta 5 memory
          ≡ some (q, h'))
        × Independent (AgentListRep plain_lawful) a_agent_list agent_list 5 memory q h')
deep_copy_agent_list-Independent_example =
    deep_copy_agent_list-Independent plain_lawful memory 5 agent_list memory-Sound agents_at

deep_copy_registry_list-Independent_example :
    (deep_copy_registry_list plain_meta nil memory ≡ some (nil, memory))
    × ((q : Ref) × (h' : Heap (Cell ObjectMeta String)) × (deep_copy_registry_list plain_meta 8
            memory
          ≡ some (q, h'))
        × Independent (RegistryListRep plain_lawful) a_registry_list registry_list 8 memory q h')
deep_copy_registry_list-Independent_example =
    deep_copy_registry_list-Independent plain_lawful memory 8 registry_list memory-Sound
      registries_at
