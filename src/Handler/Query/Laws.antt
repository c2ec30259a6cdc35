-- ===== src/Handler/Query/Laws.antt =====
-- What `ListAgents` answers.
use a2a_registry.Common.{
  String, List, [], ◌∷◌, ◌++◌, Bool, true, some, ok, ◌≡◌, ◌≢◌, arith, ◌↔◌, inl, inr, ◌==◌, eq_iff,
  any, Any, Bool-cases,
}
use a2a_registry.Api.{A2aAgent, A2aAgentSkillSpec, DiscoveryConfig}
use a2a_registry.GoStrings.{equal_fold, trim_space, split}
use a2a_registry.Platform.{Std, KubeClient, World}
use a2a_registry.Handler.Http.{Request, RegistryEntry, entries, json}
use a2a_registry.Handler.Entry.{agent_to_entry}
use a2a_registry.Handler.Query.{
  collect, namespace_option, is_listed, list_agents, label_selector_from_config,
}
use a2a_registry.Handler.Query.Filters.{in_scope, passes_tags, has_any_tag, passes_skill, has_skill}

-- Some element of the list passes a Boolean test exactly when one satisfies what the test decides.
pub any_iff :
    {A : Type 0} (p : A → Bool) (P : A → Type 0)
    → ((x : A) → (p x ≡ true) ↔ P x)
    → (xs : List A) → (any p xs ≡ true) ↔ Any P xs
any_iff p P decides [] = ground arith
any_iff p P decides (x ∷ xs) = ground (arith, decides x, any_iff p P decides xs)

-- The entries are those of the agents of the list that satisfy the predicate, in their order.
pub data Selected (P : A2aAgent → Type 0) : List A2aAgent → List RegistryEntry → Type 0 where
  done : Selected P [] []
  taken :
      {a : A2aAgent} {items : List A2aAgent} {es : List RegistryEntry}
      → P a
      → Selected P items es
      → Selected P (a ∷ items) (agent_to_entry a ∷ es)
  passed_over :
      {a : A2aAgent} {items : List A2aAgent} {es : List RegistryEntry}
      → ¬ P a
      → Selected P items es
      → Selected P (a ∷ items) es

pub collect-Selected :
    (keep : A2aAgent → Bool) (P : A2aAgent → Type 0)
    → ((a : A2aAgent) → (keep a ≡ true) ↔ P a)
    → (items : List A2aAgent) → Selected P items (collect keep items)
unfolding collect
collect-Selected keep P decides [] = done
collect-Selected keep P decides (a ∷ items) = elim (Bool-cases (keep a)) [
  | inl kept ↦ rw kept (taken ((decides a).0 kept) (collect-Selected keep P decides items))
  | inr cut ↦
      rw cut (passed_over (λ p. cc (cut, (decides a).1 p)) (collect-Selected keep P decides items))
]

module _ (std : Std) where
  -- Two tags are the same up to letter case and surrounding white space.
  abbrev pub SameTag : String → String → Type 0
  SameTag s t = equal_fold std (trim_space s) (trim_space t) ≡ true

  -- What the listing promises of an agent, for a configuration and the request's two filters.
  pub record Listed (config : DiscoveryConfig) (tags skill : String) (a : A2aAgent) : Type 0 where
    pub enabled : a.spec.enabled ≡ true
    pub scope :
        config.scope ≡ "Namespace"
        → config.namespaces ≢ []
        → Any (λ ns. a.metadata.namespace ≡ ns) config.namespaces
    pub tagged : tags ≢ "" → Any (λ ft. Any (λ at. SameTag at ft) a.spec.tags) (split b',' tags)
    pub skilled : skill ≢ "" → Any (λ s. equal_fold std s.id skill ≡ true) a.spec.skills

  in_scope_iff :
      (config : DiscoveryConfig) (a : A2aAgent)
      → (in_scope (some config) a ≡ true) ↔ (
          config.scope ≡ "Namespace"
          → config.namespaces ≢ []
          → Any (λ ns. a.metadata.namespace ≡ ns) config.namespaces)
  unfolding in_scope
  in_scope_iff config a = ground (
    arith,
    eq_iff config.scope "Namespace",
    any_iff (λ ns. a.metadata.namespace == ns) (λ ns. a.metadata.namespace ≡ ns)
        (λ ns. eq_iff a.metadata.namespace ns) config.namespaces,
  )

  passes_tags_iff :
      (tags : String) (a : A2aAgent)
      → (passes_tags std tags a ≡ true)
        ↔ (tags ≢ "" → Any (λ ft. Any (λ at. SameTag at ft) a.spec.tags) (split b',' tags))
  unfolding passes_tags has_any_tag
  passes_tags_iff tags a = ground (
    arith,
    eq_iff tags "",
    any_iff _ (λ ft. Any (λ at. SameTag at ft) a.spec.tags)
        (λ ft. any_iff _ (λ at. SameTag at ft) (λ at. ((λ h. h), (λ h. h))) a.spec.tags)
        (split b',' tags),
  )

  pub passes_skill_iff :
      (skill : String) (a : A2aAgent)
      → (passes_skill std skill a ≡ true)
        ↔ (skill ≢ "" → Any (λ s. equal_fold std s.id skill ≡ true) a.spec.skills)
  unfolding passes_skill has_skill
  passes_skill_iff skill a = ground (
    arith,
    eq_iff skill "",
    any_iff _ (λ (s : A2aAgentSkillSpec). equal_fold std s.id skill ≡ true)
        (λ s. ((λ h. h), (λ h. h))) a.spec.skills,
  )

  is_listed_iff :
      (config : DiscoveryConfig) (r : Request) (a : A2aAgent)
      → (is_listed std (some config) r a ≡ true)
        ↔ Listed config (r.query "tags") (r.query "skill") a
  unfolding is_listed
  is_listed_iff config r a = ground (
    arith,
    in_scope_iff config a,
    passes_tags_iff (r.query "tags") a,
    passes_skill_iff (r.query "skill") a,
  )

module _ {C Sel : Type 0} (std : Std) (K : KubeClient C Sel) where
  -- If the cluster answers the listing, `ListAgents` changes nothing and answers 200 with the
  -- entries, in order, of exactly those agents that are enabled, lie in the configured namespaces
  -- where the scope is Namespace and has namespaces, and pass the request's tag and skill filters.
  pub list_agents-Selected :
      (config : DiscoveryConfig) (r : Request) (w : World C) (items : List A2aAgent)
      → K.list_agents w.cluster
          (namespace_option K (r.query "namespace") ++ label_selector_from_config K (some config))
        ≡ ok items
      → (es : List RegistryEntry) × (list_agents std K (some config) r w ≡ (json (entries es), w))
        × Selected (Listed std config (r.query "tags") (r.query "skill")) items es
  unfolding list_agents
  list_agents-Selected config r w items listed = (
    collect (is_listed std (some config) r) items,
    rw listed,
    collect-Selected _ _ (is_listed_iff std config r) items,
  )
