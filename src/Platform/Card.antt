-- ===== src/Platform/Card.antt =====
-- `a2a.AgentCard` of github.com/a2aproject/a2a-go, as far as the program reads or fills it in. The
-- result of the library's `NewAgentInterface` is kept as the call itself.
use a2a_registry.Common.{String, List, Bool}

pub data TransportProtocol : Type 0 where
  transport_protocol_json_rpc : TransportProtocol

pub data AgentInterface : Type 0 where
  new_agent_interface : String → TransportProtocol → AgentInterface

pub record AgentCapabilities : Type 0 where
  pub streaming : Bool
  pub push_notifications : Bool

pub record AgentSkill : Type 0 where
  pub id : String
  pub name : String
  pub description : String
  pub tags : List String
  pub examples : List String

pub record AgentCard : Type 0 where
  pub name : String
  pub description : String
  pub version : String
  pub supported_interfaces : List AgentInterface
  pub capabilities : AgentCapabilities
  pub skills : List AgentSkill
  pub default_input_modes : List String
  pub default_output_modes : List String
