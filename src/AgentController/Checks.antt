-- ===== src/AgentController/Checks.antt =====
-- The parts of controllers/a2aagent_controller.go that only read: the test for a conflict of URLs,
-- the registry's policy, the match of an agent card, the approval, the interval and the threshold.
use a2a_registry.Common.{
  String, ◌<>◌, List, [], ◌∷◌, Bool, true, false, not, ◌&&◌, Option, none, some, Result, ok, err,
  ◌==◌, any, if◌then◌else◌,
}
use a2a_registry.Common.Int32.{ℤ, pos, ltb_ℤ}
use a2a_registry.Api.{
  A2aAgent, A2aAgentSkillSpec, HealthCheckConfig, A2aRegistry, A2aRegistrySpec, ConditionStatus,
  condition_true,
}
use a2a_registry.Conditions.{condition_type_approved}
use a2a_registry.Platform.{AgentCard, AgentSkill, Std, KubeClient}
use a2a_registry.Resolver.{AuthConfig}

abbrev pub same_object : A2aAgent → A2aAgent → Bool
same_object a b = a.metadata.name == b.metadata.name && a.metadata.namespace == b.metadata.namespace

abbrev pub is_condition_true : ConditionStatus → Bool
is_condition_true condition_true = true
is_condition_true _ = false

unfoldable pub is_approved : A2aAgent → Bool
is_approved agent =
    any (λ c. c.type == condition_type_approved && is_condition_true c.status)
      agent.status.conditions

-- The first registry's spec; none if the list fails or is empty.
abbrev pub first_spec : {E : Type 0} → Result E (List A2aRegistry) → Option A2aRegistrySpec
first_spec (err e) = none
first_spec (ok []) = none
first_spec (ok (g ∷ gs)) = some g.spec

-- Priority: per-agent, then the registry's default, then 60 s.
abbrev pub registry_interval : Option A2aRegistrySpec → ℤ
registry_interval none = pos 60
registry_interval (some cfg) =
    if ltb_ℤ (pos 0) cfg.health_check.interval_seconds
    then cfg.health_check.interval_seconds
    else pos 60

abbrev pub agent_interval : Option HealthCheckConfig → ℤ → ℤ
agent_interval none default = default
agent_interval (some h) default =
    if ltb_ℤ (pos 0) h.interval_seconds then h.interval_seconds else default

unfoldable pub interval_seconds : Option A2aRegistrySpec → A2aAgent → ℤ
interval_seconds cfg agent = agent_interval agent.spec.health_check (registry_interval cfg)

abbrev pub threshold_of : Option HealthCheckConfig → ℤ
threshold_of none = pos 3
threshold_of (some h) = if ltb_ℤ (pos 0) h.failure_threshold then h.failure_threshold else pos 3

unfoldable pub failure_threshold : A2aAgent → ℤ
failure_threshold agent = threshold_of agent.spec.health_check

abbrev pub requires_approval : Option A2aRegistrySpec → Bool
requires_approval none = false
requires_approval (some cfg) = cfg.registration.require_approval

-- A registry whose policy does not ask for health checks.
abbrev pub skips_health_check : Option A2aRegistrySpec → Bool
skips_health_check none = false
skips_health_check (some cfg) = not cfg.registration.require_health_check

abbrev pub requires_card_match : Option A2aRegistrySpec → Bool
requires_card_match none = false
requires_card_match (some cfg) = cfg.registration.require_card_match

abbrev pub has_skill_id : List AgentSkill → String → Bool
has_skill_id skills id = any (λ s. id == s.id) skills

-- The field is set in the spec, and differs.
abbrev pub differs : String → String → Bool
differs spec card = not (spec == "") && not (spec == card)

module _ (std : Std) where
  abbrev pub conflict_message : A2aAgent → A2aAgent → String
  conflict_message agent a =
      "URL conflict: "
      <> (std.quote agent.spec.url
          <> (" is already registered by agent "
              <> (std.quote a.metadata.name
                  <> (" in namespace " <> std.quote a.metadata.namespace))))

  -- The loop of `checkURLConflict`.
  unfoldable pub find_conflict : A2aAgent → List A2aAgent → String
  find_conflict agent [] = ""
  find_conflict agent (a ∷ all) =
      let rest = find_conflict agent all in
      if same_object a agent
      then rest
      else if a.spec.url == agent.spec.url
      then conflict_message agent a
      else rest

  abbrev conflict_among : {E : Type 0} → A2aAgent → Result E (List A2aAgent) → String
  conflict_among agent (err e) = ""
  conflict_among agent (ok all) = find_conflict agent all

  -- The last loop of `checkCardMatch`.
  unfoldable pub skills_mismatch : List A2aAgentSkillSpec → List AgentSkill → String
  skills_mismatch [] skills = ""
  skills_mismatch (s ∷ specs) skills =
      let rest = skills_mismatch specs skills in
      if has_skill_id skills s.id
      then rest
      else "skill " <> (std.quote s.id <> " in spec not found in agent card")

  unfoldable pub check_card_match : A2aAgent → AgentCard → String
  unfolding skills_mismatch
  check_card_match agent card =
      if differs agent.spec.name card.name
      then "name mismatch: spec="
        <> (std.quote agent.spec.name <> (" card=" <> std.quote card.name))
      else if differs agent.spec.description card.description
      then "description mismatch"
      else if differs agent.spec.version card.version
      then "version mismatch: spec="
        <> (std.quote agent.spec.version <> (" card=" <> std.quote card.version))
      else skills_mismatch agent.spec.skills card.skills

module _ {C Sel : Type 0} (K : KubeClient C Sel) where
  unfoldable pub get_registry_config : C → Option A2aRegistrySpec
  get_registry_config c = first_spec (K.list_registries c)

  -- A secret that cannot be read leaves the secret data empty.
  abbrev with_secret : C → String → Option String → AuthConfig → AuthConfig
  with_secret c namespace none auth = auth
  with_secret c namespace (some name) auth =
      elim (K.get_secret c (record { namespace = namespace; name = name })) [
        | err e ↦ auth
        | ok secret ↦ record auth { secret_data = secret }
      ]

  unfoldable pub build_auth_config : C → A2aAgent → Option AuthConfig
  build_auth_config c agent = elim agent.spec.authentication [
    | none ↦ none
    | some a ↦ some (
        with_secret c agent.metadata.namespace a.secret_ref
          (record { schemes = a.schemes; secret_data = [] }))
  ]

module _ {C Sel : Type 0} (std : Std) (K : KubeClient C Sel) where
  unfoldable pub check_url_conflict : C → A2aAgent → String
  unfolding find_conflict
  check_url_conflict c agent = conflict_among std agent (K.list_agents c [])
