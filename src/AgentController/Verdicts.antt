-- ===== src/AgentController/Verdicts.antt =====
-- What the texts mean that the reconciler's checks answer: an empty text is the good case.
use text.Mathlib.TextLemmas.{append-eq-nil_iff}
use a2a_registry.Common.{
  String, ◌<>◌, List, [], ◌∷◌, true, false, Option, none, some, ok, ◌≡◌, ◌≢◌, refl, arith, ◌↔◌, ◌⊎◌,
  ◌==◌, eq_iff, All, Any,
}
use a2a_registry.Common.Int32.{pos, ◌<ℤ◌}
use a2a_registry.Api.{A2aAgent, A2aAgentSkillSpec, A2aRegistrySpec}
use a2a_registry.Platform.{Std, AgentCard, AgentSkill, KubeClient}
use a2a_registry.AgentController.Checks.{
  interval_seconds, check_card_match, skills_mismatch, has_skill_id, differs, find_conflict,
  conflict_message, check_url_conflict,
}

-- Whatever the registry and the agent configure: the time after which the reconciler asks to be
-- called again is positive.
pub interval_seconds-pos :
    (cfg : Option A2aRegistrySpec) (a : A2aAgent) → pos 0 <ℤ interval_seconds cfg a
unfolding interval_seconds
interval_seconds-pos none a = ground arith
interval_seconds-pos (some cfg) a = ground arith

-- The field of the spec is empty, or the card's.
abbrev pub Agrees : String → String → Type 0
Agrees spec card = spec ≢ "" → spec ≡ card

pub record CardAgrees (a : A2aAgent) (card : AgentCard) : Type 0 where
  pub name : Agrees a.spec.name card.name
  pub description : Agrees a.spec.description card.description
  pub version : Agrees a.spec.version card.version
  pub skills : All (λ s. Any (λ t. s.id ≡ t.id) card.skills) a.spec.skills

-- A text with a beginning is not empty.
begun : (p s : String) → (p == "") ≡ false → p <> s ≢ ""
begun p s h e = cc (h, (eq_iff p "").1 (append-eq-nil_iff.0 e).0)

differs_iff : (spec card : String) → (differs spec card ≡ false) ↔ Agrees spec card
differs_iff spec card = ground (arith, eq_iff spec "", eq_iff spec card)

has_skill_id_iff :
    (skills : List AgentSkill) (id : String)
    → (has_skill_id skills id ≡ true) ↔ Any (λ t. id ≡ t.id) skills
has_skill_id_iff [] id = ground arith
has_skill_id_iff (t ∷ skills) id = ground (arith, has_skill_id_iff skills id, eq_iff id t.id)

-- No other object of the list has the URL.
abbrev pub UrlUnique : A2aAgent → List A2aAgent → Type 0
UrlUnique a = All (λ b.
    (b.metadata.name ≡ a.metadata.name) × (b.metadata.namespace ≡ a.metadata.namespace)
    ⊎ (b.spec.url ≢ a.spec.url))

module _ (std : Std) where
  skills_mismatch_iff :
      (specs : List A2aAgentSkillSpec) (skills : List AgentSkill)
      → (skills_mismatch std specs skills ≡ "") ↔ All (λ s. Any (λ t. s.id ≡ t.id) skills) specs
  unfolding skills_mismatch
  skills_mismatch_iff [] skills = ground arith
  skills_mismatch_iff (s ∷ specs) skills = ground (
    arith,
    skills_mismatch_iff specs skills,
    has_skill_id_iff skills s.id,
    begun "skill " (std.quote s.id <> " in spec not found in agent card") refl,
  )

  -- The card matches exactly when the name, the description and the version are each empty in the
  -- spec or the card's, and every skill of the spec has its identifier among the card's skills.
  pub check_card_match_iff :
      (a : A2aAgent) (card : AgentCard) → (check_card_match std a card ≡ "") ↔ CardAgrees a card
  unfolding check_card_match
  check_card_match_iff a card = ground (
    arith,
    differs_iff a.spec.name card.name,
    differs_iff a.spec.description card.description,
    differs_iff a.spec.version card.version,
    skills_mismatch_iff a.spec.skills card.skills,
    begun "name mismatch: spec=" (std.quote a.spec.name <> (" card=" <> std.quote card.name)) refl,
    begun "version mismatch: spec="
        (std.quote a.spec.version <> (" card=" <> std.quote card.version)) refl,
    eq_iff "description mismatch" "",
  )

  conflict_message-ne : (a b : A2aAgent) → conflict_message std a b ≢ ""
  conflict_message-ne a b = begun "URL conflict: " _ refl

  find_conflict_iff :
      (a : A2aAgent) (all : List A2aAgent) → (find_conflict std a all ≡ "") ↔ UrlUnique a all
  unfolding find_conflict
  find_conflict_iff a [] = ground arith
  find_conflict_iff a (b ∷ all) = ground (
    arith,
    find_conflict_iff a all,
    eq_iff b.spec.url a.spec.url,
    eq_iff b.metadata.name a.metadata.name,
    eq_iff b.metadata.namespace a.metadata.namespace,
    conflict_message-ne a b,
  )

module _ {C Sel : Type 0} (std : Std) (K : KubeClient C Sel) where
  -- In a cluster that answers the list: the reconciler sees no conflict exactly when no other
  -- object of the list has the agent's URL.
  pub check_url_conflict_iff :
      (c : C) (a : A2aAgent) (all : List A2aAgent)
      → K.list_agents c [] ≡ ok all
      → (check_url_conflict std K c a ≡ "") ↔ UrlUnique a all
  unfolding check_url_conflict
  check_url_conflict_iff c a all listed = rw listed (find_conflict_iff std a all)
