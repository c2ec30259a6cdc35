-- ===== src/Handler/Query/Filters.antt =====
-- The filters of `ListAgents` and `Search`.
use a2a_registry.Common.{
  String, List, [], ◌∷◌, Bool, true, false, not, ◌&&◌, ◌||◌, Option, none, some, ◌==◌, any,
  if◌then◌else◌,
}
use a2a_registry.Api.{A2aAgent, A2aAgentSkillSpec, DiscoveryConfig}
use a2a_registry.GoStrings.{to_lower, equal_fold, trim_space, split, contains}
use a2a_registry.Platform.{Std}

abbrev pub is_empty : List String → Bool
is_empty [] = true
is_empty (_ ∷ _) = false

-- The namespaces bound the listing.
abbrev pub is_scoped : DiscoveryConfig → Bool
is_scoped config = config.scope == "Namespace" && not (is_empty config.namespaces)

unfoldable pub in_scope : Option DiscoveryConfig → A2aAgent → Bool
in_scope none a = true
in_scope (some config) a =
    if is_scoped config then any (λ ns. a.metadata.namespace == ns) config.namespaces else true

unfoldable pub passes_capability : String → A2aAgent → Bool
passes_capability capability a =
    if capability == "streaming"
    then a.spec.capabilities.streaming
    else if capability == "pushnotifications"
    then a.spec.capabilities.push_notifications
    else true

module _ (std : Std) where
  unfoldable pub has_any_tag : List String → List String → Bool
  has_any_tag agent_tags filter_tags =
      any (λ ft. any (λ at. equal_fold std (trim_space at) (trim_space ft)) agent_tags) filter_tags

  unfoldable pub has_tag : List String → String → Bool
  has_tag agent_tags tag = any (λ t. equal_fold std t tag) agent_tags

  unfoldable pub has_skill : List A2aAgentSkillSpec → String → Bool
  has_skill skills id = any (λ s. equal_fold std s.id id) skills

  unfoldable pub passes_tags : String → A2aAgent → Bool
  passes_tags tags a = tags == "" || has_any_tag a.spec.tags (split b',' tags)

  unfoldable pub passes_skill : String → A2aAgent → Bool
  passes_skill skill a = skill == "" || has_skill a.spec.skills skill

  unfoldable pub passes_tag : String → A2aAgent → Bool
  passes_tag tag a = tag == "" || has_tag a.spec.tags tag

  unfoldable pub passes_text : String → A2aAgent → Bool
  passes_text q a =
      q == ""
      || contains (to_lower std a.spec.name) q
      || contains (to_lower std a.spec.description) q
