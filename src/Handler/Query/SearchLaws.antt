-- ===== src/Handler/Query/SearchLaws.antt =====
-- What `Search` answers.
use a2a_registry.Common.{
  String, List, true, Option, some, ok, ◌≡◌, ◌≢◌, arith, ◌↔◌, ◌⊎◌, eq_iff, Any,
}
use a2a_registry.Api.{A2aAgent, DiscoveryConfig}
use a2a_registry.GoStrings.{equal_fold, to_lower, contains}
use a2a_registry.Platform.{Std, KubeClient, World}
use a2a_registry.Handler.Http.{Request, RegistryEntry, entries, json}
use a2a_registry.Handler.Query.{collect, is_found, search_agents, label_selector_from_config}
use a2a_registry.Handler.Query.Filters.{passes_text, passes_tag, has_tag, passes_capability}
use a2a_registry.Handler.Query.Laws.{any_iff, collect-Selected, Selected, passes_skill_iff}

module _ (std : Std) where
  -- What a search promises of an agent: the four arguments are those of the query, in lower case.
  pub record Found (q tag skill capability : String) (a : A2aAgent) : Type 0 where
    pub enabled : a.spec.enabled ≡ true
    pub text :
        q ≢ ""
        → (contains (to_lower std a.spec.name) q ≡ true)
          ⊎ (contains (to_lower std a.spec.description) q ≡ true)
    pub tagged : tag ≢ "" → Any (λ t. equal_fold std t tag ≡ true) a.spec.tags
    pub skilled : skill ≢ "" → Any (λ s. equal_fold std s.id skill ≡ true) a.spec.skills
    pub streams : capability ≡ "streaming" → a.spec.capabilities.streaming ≡ true
    pub pushes : capability ≡ "pushnotifications" → a.spec.capabilities.push_notifications ≡ true

  passes_text_iff :
      (q : String) (a : A2aAgent)
      → (passes_text std q a ≡ true) ↔ (
          q ≢ ""
          → (contains (to_lower std a.spec.name) q ≡ true)
            ⊎ (contains (to_lower std a.spec.description) q ≡ true))
  unfolding passes_text
  passes_text_iff q a = ground (arith, eq_iff q "")

  passes_tag_iff :
      (tag : String) (a : A2aAgent)
      → (passes_tag std tag a ≡ true)
        ↔ (tag ≢ "" → Any (λ t. equal_fold std t tag ≡ true) a.spec.tags)
  unfolding passes_tag has_tag
  passes_tag_iff tag a = ground (
    arith,
    eq_iff tag "",
    any_iff _ (λ t. equal_fold std t tag ≡ true) (λ t. ((λ h. h), (λ h. h))) a.spec.tags,
  )

  passes_capability_iff :
      (capability : String) (a : A2aAgent)
      → (passes_capability capability a ≡ true) ↔ (
          (capability ≡ "streaming" → a.spec.capabilities.streaming ≡ true)
          × (capability ≡ "pushnotifications" → a.spec.capabilities.push_notifications ≡ true))
  unfolding passes_capability
  passes_capability_iff capability a = ground (
    arith,
    eq_iff capability "streaming",
    eq_iff capability "pushnotifications",
    eq_iff "streaming" "pushnotifications",
  )

  is_found_iff :
      (r : Request) (a : A2aAgent)
      → (is_found std r a ≡ true)
        ↔ Found
            (to_lower std (r.query "q"))
            (to_lower std (r.query "tag"))
            (to_lower std (r.query "skill"))
            (to_lower std (r.query "capability"))
            a
  unfolding is_found
  is_found_iff r a = ground (
    arith,
    passes_text_iff (to_lower std (r.query "q")) a,
    passes_tag_iff (to_lower std (r.query "tag")) a,
    passes_skill_iff std (to_lower std (r.query "skill")) a,
    passes_capability_iff (to_lower std (r.query "capability")) a,
  )

module _ {C Sel : Type 0} (std : Std) (K : KubeClient C Sel) where
  -- If the cluster answers the listing, `Search` changes nothing and answers 200 with the entries,
  -- in order, of exactly those agents that are enabled and pass the filters that the query gives:
  -- the text in the name or the description, the tag, the skill, and the capability.
  pub search_agents-Selected :
      (config : Option DiscoveryConfig) (r : Request) (w : World C) (items : List A2aAgent)
      → K.list_agents w.cluster (label_selector_from_config K config) ≡ ok items
      → (es : List RegistryEntry) × (search_agents std K config r w ≡ (json (entries es), w))
        × Selected
            (Found std
              (to_lower std (r.query "q"))
              (to_lower std (r.query "tag"))
              (to_lower std (r.query "skill"))
              (to_lower std (r.query "capability")))
            items
            es
  unfolding search_agents
  search_agents-Selected config r w items listed =
      (collect (is_found std r) items, rw listed, collect-Selected _ _ (is_found_iff std r) items)

  -- `Search` reads nothing of the configuration but the label selector: whatever the scope and the
  -- namespaces are, it gives one answer.
  pub search_agents-scope :
      (c d : DiscoveryConfig) (r : Request) (w : World C)
      → c.label_selector ≡ d.label_selector
      → search_agents std K (some c) r w ≡ search_agents std K (some d) r w
  unfolding search_agents label_selector_from_config
  search_agents-scope c d r w same = rw same
