-- ===== src/Webhook/AgentHook/Validation.antt =====
-- What the validator of agents accepts.
use a2a_registry.Common.{
  ◌≤◌, String, List, [], ◌∷◌, ◌++◌, Bool, true, false, Option, none, some, ◌≡◌, ◌≢◌, ◌↔◌, ◌⊎◌, ◌==◌,
  eq_iff, arith, Member, length,
}
use a2a_registry.Common.Int32.{pos, ◌≤ℤ◌, ◌<ℤ◌}
use a2a_registry.Api.{A2aAgent, A2aAgentSpec, A2aAgentSkillSpec, HealthCheckConfig}
use a2a_registry.GoStrings.{split}
use a2a_registry.Platform.{Std}
use a2a_registry.Webhook.AgentHook.{
  complain, seen, skill_errors, health_check_errors, is_http, url_errors, version_errors,
  validate_a2a_agent,
}

-- Every skill has an identifier and a name, and no identifier is among the given ones or twice in
-- the list.
abbrev pub ValidSkills : List String → List A2aAgentSkillSpec → Type 0
ValidSkills ids [] = Unit
ValidSkills ids (s ∷ skills) =
    (s.id ≢ "") × (s.name ≢ "") × (¬ Member s.id ids) × ValidSkills (s.id ∷ ids) skills

abbrev pub ValidHealthCheck : Option HealthCheckConfig → Type 0
ValidHealthCheck none = Unit
ValidHealthCheck (some h) =
    (pos 0 <ℤ h.interval_seconds → pos 10 ≤ℤ h.interval_seconds)
    × (pos 0 <ℤ h.timeout_seconds
        → pos 0 <ℤ h.interval_seconds
        → h.timeout_seconds ≤ℤ h.interval_seconds)

module _ (std : Std) where
  abbrev pub ValidUrl : String → Type 0
  ValidUrl url =
      (url ≢ "") × ((std.url_scheme url ≡ some "http") ⊎ (std.url_scheme url ≡ some "https"))

  -- The specification of an agent that may be stored.
  pub record ValidSpec (s : A2aAgentSpec) : Type 0 where
    pub name : s.name ≢ ""
    pub url : ValidUrl s.url
    pub skills : ValidSkills [] s.skills
    pub health_check : ValidHealthCheck s.health_check
    pub protocol_version : s.protocol_version ≢ "" → 2 ≤ length (split b'.' s.protocol_version)

complain-eq-nil : (b : Bool) (m : String) → (complain b m ≡ []) ↔ (b ≡ false)
complain-eq-nil b m = ground arith

pub append-eq-nil_iff : (xs ys : List String) → (xs ++ ys ≡ []) ↔ ((xs ≡ []) × (ys ≡ []))
append-eq-nil_iff [] ys = ground arith
append-eq-nil_iff (x ∷ xs) ys = ground arith

seen_iff : (ids : List String) (id : String) → (seen ids id ≡ false) ↔ (¬ Member id ids)
seen_iff [] id = ground arith
seen_iff (i ∷ ids) id = ground (arith, seen_iff ids id, eq_iff i id)

skill_errors_iff :
    (ids : List String) (skills : List A2aAgentSkillSpec)
    → (skill_errors ids skills ≡ []) ↔ ValidSkills ids skills
unfolding skill_errors
skill_errors_iff ids [] = ground arith
skill_errors_iff ids (s ∷ skills) = ground (
  arith,
  skill_errors_iff (s.id ∷ ids) skills,
  seen_iff ids s.id,
  eq_iff s.id "",
  eq_iff s.name "",
)

health_check_errors_iff :
    (h : Option HealthCheckConfig) → (health_check_errors h ≡ []) ↔ ValidHealthCheck h
unfolding health_check_errors
health_check_errors_iff none = ground arith
health_check_errors_iff (some h) = ground arith

module _ (std : Std) where
  is_http_iff : (o : Option String) → (is_http o ≡ true) ↔ ((o ≡ some "http") ⊎ (o ≡ some "https"))
  is_http_iff none = ground arith
  is_http_iff (some s) = ground (arith, eq_iff s "http", eq_iff s "https")

  url_errors_iff : (url : String) → (url_errors std url ≡ []) ↔ ValidUrl std url
  unfolding url_errors
  url_errors_iff url = ground (arith, eq_iff url "", is_http_iff (std.url_scheme url))

  version_errors_iff :
      (v : String) → (version_errors std v ≡ []) ↔ (v ≢ "" → 2 ≤ length (split b'.' v))
  unfolding version_errors
  version_errors_iff v = ground (arith, eq_iff v "")

  -- The validator accepts exactly the specifications that are valid: a name, an HTTP or HTTPS URL,
  -- named skills with distinct identifiers, health check times in their bounds, and a protocol
  -- version of two parts or none.
  pub validate_a2a_agent_iff :
      (a : A2aAgent) → (validate_a2a_agent std a ≡ []) ↔ ValidSpec std a.spec
  unfolding validate_a2a_agent
  validate_a2a_agent_iff a = ground (
    arith,
    append-eq-nil_iff (complain (a.spec.name == "") "spec.name must not be empty") _,
    append-eq-nil_iff (url_errors std a.spec.url) _,
    append-eq-nil_iff (skill_errors [] a.spec.skills) _,
    append-eq-nil_iff (health_check_errors a.spec.health_check) _,
    eq_iff a.spec.name "",
    url_errors_iff a.spec.url,
    skill_errors_iff [] a.spec.skills,
    health_check_errors_iff a.spec.health_check,
    version_errors_iff a.spec.protocol_version,
  )
