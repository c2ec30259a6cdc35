-- ===== src/AgentController/Safety/Allowed.antt =====
-- What the reconciler may write, and the lemmas on single writes.
use a2a_registry.Common.{
  List, [], ◌∷◌, Bool, true, false, Option, none, some, ◌≡◌, refl, arith, ◌⊎◌, inl, inr,
  Result-cases, if◌then◌else◌,
}
use a2a_registry.Api.{Time, A2aAgent, A2aAgentStatus, A2aRegistrySpec, ready}
use a2a_registry.Platform.{
  AgentCard, Std, KubeClient, World, Exec, Effect, wrote, metric, recorded, ◌>>=◌, ◌>>◌, pure,
  status_update, create_agent, update_agent, status_update_agent, delete_agent, update_registry,
  status_update_registry,
}
use a2a_registry.Resolver.{Network}
use a2a_registry.HealthCheck.{HealthResult, check_with_auth}
use a2a_registry.AgentController.Checks.{
  check_url_conflict, find_conflict, get_registry_config, build_auth_config, is_approved,
  requires_approval, requires_card_match, skips_health_check,
}
use a2a_registry.AgentController.Steps.{set_status, judge}
use a2a_registry.AgentController.Safety.{Extends, more, approved_in}
use a2a_registry.AgentController.Safety.Judged.{Passed, CardOk, judge-card}

-- An approval that the found agent has is not lost.
abbrev pub KeepsApproval : A2aAgent → A2aAgent → Type 0
KeepsApproval found a =
    approved_in found.status.conditions ≡ true → approved_in a.status.conditions ≡ true

module _ {C Sel : Type 0} (std : Std) (K : KubeClient C Sel) (net : Network) where
  -- What the health check of an agent answers in a cluster.
  abbrev pub health_of : C → A2aAgent → HealthResult
  health_of c a = (check_with_auth std net a (build_auth_config K c a)).0

  -- What an agent must have before it may be Ready: no other agent has its URL, it is enabled, it
  -- is approved if the policy asks for that, and unless the policy skips health checks, its health
  -- check passed and its card matches if the policy asks for that.
  pub record ReadyOk (c : C) (a : A2aAgent) : Type 0 where
    pub no_conflict : check_url_conflict std K c a ≡ ""
    pub enabled : a.spec.enabled ≡ true
    pub approved : requires_approval (get_registry_config K c) ≡ true → is_approved a ≡ true
    pub checked :
        (skips_health_check (get_registry_config K c) ≡ true)
        ⊎ Passed std (get_registry_config K c) a (health_of c a)

  -- A write of a status, of the agent that was found, whose approval is kept and whose phase is
  -- Ready only if that agent may be; metrics and events; no other write.
  abbrev pub AllowedEffect : C → A2aAgent → Effect → Type 0
  AllowedEffect c found (wrote (status_update_agent a)) =
      (a.metadata ≡ found.metadata)
      × (a.spec ≡ found.spec)
      × KeepsApproval found a
      × (a.status.phase ≡ ready → ReadyOk c found)
  AllowedEffect c found (wrote (create_agent a)) = ⊥
  AllowedEffect c found (wrote (update_agent a)) = ⊥
  AllowedEffect c found (wrote (delete_agent k)) = ⊥
  AllowedEffect c found (wrote (update_registry g)) = ⊥
  AllowedEffect c found (wrote (status_update_registry g)) = ⊥
  AllowedEffect c found (metric m) = Unit
  AllowedEffect c found (recorded e) = Unit

  pub find_conflict-set_status :
      (a : A2aAgent) (s : A2aAgentStatus) (all : List A2aAgent)
      → find_conflict std (set_status a s) all ≡ find_conflict std a all
  unfolding find_conflict
  find_conflict-set_status a s [] = refl
  find_conflict-set_status a s (b ∷ all) = ground (arith, find_conflict-set_status a s all)

  pub conflict-set_status :
      (c : C) (a : A2aAgent) (s : A2aAgentStatus)
      → check_url_conflict std K c (set_status a s) ≡ check_url_conflict std K c a
  unfolding check_url_conflict
  conflict-set_status c a s = elim (Result-cases (K.list_agents c [])) [
    | inl (all, e) ↦ rw e (find_conflict-set_status a s all)
    | inr (x, e) ↦ rw e
  ]

  pub card_ok :
      (now : Time) (cfg : Option A2aRegistrySpec) (r : HealthResult) (a : A2aAgent)
      (t : List Effect)
      → (judge std now cfg r a t).0.status.phase ≡ ready
      → requires_card_match cfg ≡ true
      → (card : Option AgentCard) → r.card ≡ card
      → CardOk std a card
  card_ok now cfg r a t h m none e = tt
  card_ok now cfg r a t h m (some card) e = judge-card std now cfg r a t card h m e

  -- A test before two actions.
  pub if-exec :
      {A : Type 0} {P : Effect → Type 0} {old : List Effect} (b : Bool) (m n : Exec C A)
      (w : World C)
      → (b ≡ true → Extends P old w.trace → Extends P old (m w).1.trace)
      → (b ≡ false → Extends P old w.trace → Extends P old (n w).1.trace)
      → Extends P old w.trace
      → Extends P old ((if b then m else n) w).1.trace
  if-exec true m n w yes_case no_case h = yes_case refl h
  if-exec false m n w yes_case no_case h = no_case refl h

  -- The last step of every branch: the status is written, and nothing after it.
  pub written-Extends :
      {A : Type 0} (P : Effect → Type 0) (b : A2aAgent) (x : A) (w : World C) (old : List Effect)
      → P (wrote (status_update_agent b))
      → Extends P old w.trace
      → Extends P old ((status_update K b >> pure x) w).1.trace
  unfolding ◌>>=◌
  written-Extends P b x w old p h = elim (Result-cases (K.status_update_agent w.cluster b).0) [
    | inl (a, e) ↦ rw e (more p h)
    | inr (x, e) ↦ rw e (more p h)
  ]
