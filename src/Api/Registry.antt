-- ===== src/Api/Registry.antt =====
-- a2aregistry_types.go.
use a2a_registry.Common.{String, Option, List, Bool}
use a2a_registry.Common.Int32.{ℤ}
use a2a_registry.Api.Meta.{ObjectMeta, Condition}

-- The spec's `DiscoveryConfig`, and the struct of the same fields that the API server keeps.
pub record DiscoveryConfig : Type 0 where
  pub scope : String
  pub label_selector : String
  pub namespaces : List String

pub record RegistrationConfig : Type 0 where
  pub require_approval : Bool
  pub require_health_check : Bool
  pub require_card_match : Bool

pub record HealthCheckDefaults : Type 0 where
  pub interval_seconds : ℤ
  pub timeout_seconds : ℤ

pub record ApiServerConfig : Type 0 where
  pub port : ℤ
  pub bind_address : String
  pub tls_cert_ref : Option String

pub record A2aRegistrySpec : Type 0 where
  pub discovery : DiscoveryConfig
  pub registration : RegistrationConfig
  pub health_check : HealthCheckDefaults
  pub api_server : ApiServerConfig

pub record A2aRegistryStatus : Type 0 where
  pub phase : String
  pub agent_count : ℤ
  pub healthy_agents : ℤ
  pub conditions : List Condition

pub record A2aRegistry : Type 0 where
  pub metadata : ObjectMeta
  pub spec : A2aRegistrySpec
  pub status : A2aRegistryStatus
