-- ===== src/Handler/Query.antt =====
-- The reading handlers of handler.go: `ListAgents`, `Search`, `GetAgent`, `GetAgentCard` and
-- `WellKnown`.
pub mod Filters
pub mod Lookup
pub mod Laws
pub mod SearchLaws
use a2a_registry.Common.{
  String, ◌<>◌, List, [], ◌∷◌, ◌++◌, Bool, true, false, not, ◌&&◌, ◌||◌, Option, none, some, Result,
  ok, err, ◌==◌, if◌then◌else◌,
}
use a2a_registry.Api.{A2aAgent, DiscoveryConfig}
use a2a_registry.Platform.{
  Std, KubeClient, KubeError, ListOption, in_namespace, matching_labels_selector,
}
use a2a_registry.GoStrings.{to_lower}
use a2a_registry.Handler.Http.{Request, RegistryEntry, Response, Serve, entries, http_error, json}
use a2a_registry.Handler.Entry.{agent_to_entry}
use a2a_registry.Handler.Query.Filters.{
  in_scope, passes_tags, passes_skill, passes_text, passes_tag, passes_capability,
}

-- A loop that appends the entries of the agents that it does not skip.
unfoldable pub collect : (A2aAgent → Bool) → List A2aAgent → List RegistryEntry
collect keep [] = []
collect keep (a ∷ items) =
    let rest = collect keep items in if keep a then agent_to_entry a ∷ rest else rest

module _ (std : Std) where
  -- The tests of the loop of `ListAgents`.
  unfoldable pub is_listed : Option DiscoveryConfig → Request → A2aAgent → Bool
  is_listed config r a =
      a.spec.enabled
      && (in_scope config a
          && (passes_tags std (r.query "tags") a && passes_skill std (r.query "skill") a))

  -- The tests of the loop of `Search`.
  unfoldable pub is_found : Request → A2aAgent → Bool
  is_found r a =
      a.spec.enabled
      && (passes_text std (to_lower std (r.query "q")) a
          && (passes_tag std (to_lower std (r.query "tag")) a
              && (passes_skill std (to_lower std (r.query "skill")) a
                  && passes_capability (to_lower std (r.query "capability")) a)))

abbrev pub respond : (A2aAgent → Bool) → Result KubeError (List A2aAgent) → Response
respond keep (err e) = http_error 500 ("Failed to list agents: " <> e.message)
respond keep (ok items) = json (entries (collect keep items))

module _ {C Sel : Type 0} (K : KubeClient C Sel) where
  abbrev selector_option : Option Sel → List (ListOption Sel)
  selector_option none = []
  selector_option (some sel) = matching_labels_selector sel ∷ []

  -- A selector that cannot be parsed is left out.
  unfoldable pub label_selector_from_config : Option DiscoveryConfig → List (ListOption Sel)
  label_selector_from_config none = []
  label_selector_from_config (some config) =
      if config.label_selector == ""
      then []
      else selector_option (K.parse_selector config.label_selector)

  abbrev pub namespace_option : String → List (ListOption Sel)
  namespace_option ns = if ns == "" then [] else in_namespace ns ∷ []

module _ {C Sel : Type 0} (std : Std) (K : KubeClient C Sel) where
  unfoldable pub list_agents : Option DiscoveryConfig → Request → Serve C
  list_agents config r w = (
    respond (is_listed std config r) (
        K.list_agents w.cluster
          (namespace_option K (r.query "namespace") ++ label_selector_from_config K config)),
    w,
  )

  unfoldable pub search_agents : Option DiscoveryConfig → Request → Serve C
  search_agents config r w =
      (respond (is_found std r) (K.list_agents w.cluster (label_selector_from_config K config)), w)
