-- ===== src/Webhook/AgentHook.antt =====
-- a2aagent_webhook.go.
pub mod Validation
pub mod Defaults
pub mod Admission
use a2a_registry.Common.{
  String, ◌<>◌, List, [], ◌∷◌, ◌++◌, Bool, true, false, not, ◌&&◌, ◌||◌, Option, none, some, ◌==◌,
  any, length, ltb, if◌then◌else◌,
}
use a2a_registry.Common.Int32.{pos, ltb_ℤ, eqb_ℤ}
use a2a_registry.Api.{A2aAgent, A2aAgentSpec, A2aAgentSkillSpec, HealthCheckConfig}
use a2a_registry.GoStrings.{split}
use a2a_registry.Platform.{Std}

-- A message if the test passes.
abbrev pub complain : Bool → String → List String
complain b message = if b then message ∷ [] else []

-- `skillIDs` of the source, a set of texts.
abbrev pub seen : List String → String → Bool
seen ids id = any (λ i. i == id) ids

-- The loop over the skills, with the identifiers met so far.
unfoldable pub skill_errors : List String → List A2aAgentSkillSpec → List String
skill_errors ids [] = []
skill_errors ids (s ∷ skills) =
    let skipped = skill_errors ids skills in
    let rest = skill_errors (s.id ∷ ids) skills in
    if s.id == ""
    then "spec.skills[].id must not be empty" ∷ skipped
    else complain (seen ids s.id) ("duplicate skill ID: " <> s.id)
      ++ (complain (s.name == "") ("spec.skills[" <> (s.id <> "].name must not be empty")) ++ rest)

unfoldable pub health_check_errors : Option HealthCheckConfig → List String
health_check_errors none = []
health_check_errors (some h) =
    complain (ltb_ℤ (pos 0) h.interval_seconds && ltb_ℤ h.interval_seconds (pos 10))
      "spec.healthCheck.intervalSeconds must be at least 10"
    ++ complain
        (ltb_ℤ (pos 0) h.timeout_seconds
          && ltb_ℤ (pos 0) h.interval_seconds
          && ltb_ℤ h.interval_seconds h.timeout_seconds)
        "spec.healthCheck.timeoutSeconds must not exceed intervalSeconds"

abbrev is_http : Option String → Bool
is_http none = false
is_http (some scheme) = scheme == "http" || scheme == "https"

module _ (std : Std) where
  unfoldable pub url_errors : String → List String
  url_errors url =
      if url == ""
      then "spec.url must not be empty" ∷ []
      else complain (not (is_http (std.url_scheme url)))
          "spec.url must be a valid HTTP or HTTPS URL"

  unfoldable pub version_errors : String → List String
  version_errors v =
      complain (not (v == "") && ltb (length (split b'.' v)) 2)
        "spec.protocolVersion must be a valid version (e.g. \"1.0\")"

  -- The messages of `validateA2AAgent`.
  unfoldable pub validate_a2a_agent : A2aAgent → List String
  validate_a2a_agent a =
      complain (a.spec.name == "") "spec.name must not be empty"
      ++ (url_errors a.spec.url
          ++ (skill_errors [] a.spec.skills
              ++ (health_check_errors a.spec.health_check
                  ++ version_errors a.spec.protocol_version)))

  -- What the webhook answers to a create, an update and a delete.
  unfoldable pub validate_create : A2aAgent → List String
  unfolding validate_a2a_agent
  validate_create a = validate_a2a_agent a

  unfoldable pub validate_update : A2aAgent → A2aAgent → List String
  unfolding validate_a2a_agent
  validate_update old new = validate_a2a_agent new

  unfoldable pub validate_delete : A2aAgent → List String
  validate_delete a = []

-- `Default`.
abbrev default_config : HealthCheckConfig
default_config = record {
  interval_seconds = pos 60;
  timeout_seconds = pos 10;
  failure_threshold = pos 3;
}

abbrev default_health_check : Option HealthCheckConfig → HealthCheckConfig
default_health_check none = default_config
default_health_check (some h) = record {
  interval_seconds = if eqb_ℤ h.interval_seconds (pos 0) then pos 60 else h.interval_seconds;
  timeout_seconds = if eqb_ℤ h.timeout_seconds (pos 0) then pos 10 else h.timeout_seconds;
  failure_threshold = if eqb_ℤ h.failure_threshold (pos 0) then pos 3 else h.failure_threshold;
}

unfoldable pub default_spec : A2aAgentSpec → A2aAgentSpec
default_spec s = record s {
  protocol_version = if s.protocol_version == "" then "1.0" else s.protocol_version;
  enabled = if not s.enabled && not (s.url == "") then true else s.enabled;
  health_check = some (default_health_check s.health_check);
}

unfoldable pub default_agent : A2aAgent → A2aAgent
unfolding default_spec
default_agent a = record a { spec = default_spec a.spec }
