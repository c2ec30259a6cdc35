-- ===== src/Handler/Http.antt =====
-- Requests and responses, as far as the handlers see them. A JSON body is the value that is encoded.
use a2a_registry.Common.{ℕ, String, List, Bool}
use a2a_registry.Common.Int32.{ℤ}
use a2a_registry.Platform.{AgentCard, World}

pub record Request : Type 0 where
  pub method : String
  pub path : String
  -- `r.URL.Query().Get`
  pub query : String → String
  pub host : String
  -- is `r.TLS` set?
  pub tls : Bool
  pub body : String

pub record SkillEntry : Type 0 where
  pub id : String
  pub name : String
  pub description : String

pub record ConditionEntry : Type 0 where
  pub type : String
  pub status : String
  pub reason : String
  pub message : String

pub record RegistryEntry : Type 0 where
  pub name : String
  pub display_name : String
  pub description : String
  pub url : String
  pub version : String
  pub health : String
  pub phase : String
  pub tags : List String
  pub skills : List SkillEntry
  pub namespace : String
  pub conditions : List ConditionEntry

pub record ConfigResponse : Type 0 where
  pub require_approval : Bool
  pub require_health_check : Bool
  pub require_card_match : Bool
  pub health_check_interval_seconds : ℤ
  pub health_check_timeout_seconds : ℤ

pub data Payload : Type 0 where
  -- a text: of `http.Error`, or written as it is
  message text : String → Payload
  entries : List RegistryEntry → Payload
  entry : RegistryEntry → Payload
  card : AgentCard → Payload
  config : ConfigResponse → Payload
  dashboard_html : Payload
  empty : Payload

pub record Response : Type 0 where
  pub status : ℕ
  pub payload : Payload

abbrev pub http_error : ℕ → String → Response
http_error status m = record { status = status; payload = message m }

abbrev pub json : Payload → Response
json p = record { status = 200; payload = p }

-- A handler writes its response, and may change the world.
abbrev pub Serve : Type 0 → Type 0
Serve C = World C → Response × World C
