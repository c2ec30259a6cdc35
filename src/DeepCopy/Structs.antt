-- ===== src/DeepCopy/Structs.antt =====
-- The structs of api/v1 as they lie in memory: a slice or a pointer is a reference to a cell. `O` and
-- `L` are metav1's `ObjectMeta` and `ListMeta`, whose own deep copies are not in this repository.
use a2a_registry.Common.{String, Bool}
use a2a_registry.Common.Int32.{ℤ}
use a2a_registry.Api.{
  A2aAgentPhase, A2aAgentHealth, A2aAgentCapabilities, RegistrationConfig, HealthCheckDefaults,
}
use a2a_registry.DeepCopy.Memory.{Ref}

pub record TypeMeta : Type 0 where
  pub kind : String
  pub api_version : String

pub record SkillStruct : Type 0 where
  pub id : String
  pub name : String
  pub description : String
  pub tags : Ref
  pub examples : Ref

pub record AuthenticationStruct : Type 0 where
  pub schemes : Ref
  pub secret_ref : Ref

pub record SpecStruct : Type 0 where
  pub name : String
  pub description : String
  pub version : String
  pub url : String
  pub capabilities : A2aAgentCapabilities
  pub skills : Ref
  pub authentication : Ref
  pub default_input_modes : Ref
  pub default_output_modes : Ref
  pub provider : Ref
  pub protocol_version : String
  pub tags : Ref
  pub health_check : Ref
  pub enabled : Bool

pub record StatusStruct : Type 0 where
  pub phase : A2aAgentPhase
  pub health : A2aAgentHealth
  pub message : String
  pub last_heartbeat : Ref
  pub agent_card_hash : String
  pub observed_generation : ℤ
  pub consecutive_failures : ℤ
  pub registered_at : Ref
  pub conditions : Ref

pub record DiscoveryStruct : Type 0 where
  pub scope : String
  pub label_selector : String
  pub namespaces : Ref

pub record ApiServerStruct : Type 0 where
  pub port : ℤ
  pub bind_address : String
  pub tls_cert_ref : Ref

pub record RegistrySpecStruct : Type 0 where
  pub discovery : DiscoveryStruct
  pub registration : RegistrationConfig
  pub health_check : HealthCheckDefaults
  pub api_server : ApiServerStruct

pub record RegistryStatusStruct : Type 0 where
  pub phase : String
  pub agent_count : ℤ
  pub healthy_agents : ℤ
  pub conditions : Ref

-- An `A2AAgent`, or an `A2ARegistry`.
pub record ObjectStruct (O Spec Status : Type 0) : Type 0 where
  pub type_meta : TypeMeta
  pub metadata : O
  pub spec : Spec
  pub status : Status

pub record ListStruct (L : Type 0) : Type 0 where
  pub type_meta : TypeMeta
  pub metadata : L
  pub items : Ref

abbrev pub AgentStruct : Type 0 → Type 0
AgentStruct O = ObjectStruct O SpecStruct StatusStruct

abbrev pub RegistryStruct : Type 0 → Type 0
RegistryStruct O = ObjectStruct O RegistrySpecStruct RegistryStatusStruct
