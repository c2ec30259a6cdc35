-- ===== src/RegistryController/Safety.antt =====
-- What one run of the registry's reconciler writes, once the agents are listed.
use a2a_registry.Common.{
  List, [], ◌∷◌, true, not, ◌||◌, Option, ok, ◌≡◌, refl, inl, inr, All, Any, length, Bool-cases,
  Result-cases,
}
use a2a_registry.Common.Int32.{ℤ, pos, to_int32, eqb_ℤ}
use a2a_registry.Api.{Time, ObjectKey, A2aAgent, A2aRegistry}
use a2a_registry.Platform.{
  Std, KubeClient, ControllerUtil, World, Exec, Effect, MetricCall, Event, wrote, metric, recorded,
  create_agent, update_agent, status_update_agent, delete_agent, update_registry,
  status_update_registry, status_update_reg, ◌>>=◌, ◌>>◌, pure,
}
use a2a_registry.Server.{Server}
use a2a_registry.AgentController.Safety.{Extends, same, more}
use a2a_registry.RegistryController.{
  count_healthy, is_stale, active_status, count_agents, key_of, prune_agent, prune, announce, track,
}

-- A stale agent with the key.
abbrev pub StaleAt : Time → ObjectKey → A2aAgent → Type 0
StaleAt now key a = (is_stale now a ≡ true) × (key_of a.metadata ≡ key)

-- Deletes of stale agents of the list, and the status of the registry with the list's counts.
abbrev pub TrackEffect : Time → A2aRegistry → List A2aAgent → Effect → Type 0
TrackEffect now g items (wrote (delete_agent key)) = Any (StaleAt now key) items
TrackEffect now g items (wrote (status_update_registry h)) =
    (h.metadata ≡ g.metadata)
    × (h.spec ≡ g.spec)
    × (h.status.phase ≡ "Active")
    × (h.status.agent_count ≡ to_int32 (length items))
    × (h.status.healthy_agents ≡ count_healthy items (pos 0))
TrackEffect now g items (wrote (create_agent a)) = ⊥
TrackEffect now g items (wrote (update_agent a)) = ⊥
TrackEffect now g items (wrote (status_update_agent a)) = ⊥
TrackEffect now g items (wrote (update_registry h)) = ⊥
TrackEffect now g items (metric m) = Unit
TrackEffect now g items (recorded e) = Unit

deletable :
    (now : Time) (all rest : List A2aAgent)
    → ((key : ObjectKey) → Any (StaleAt now key) rest → Any (StaleAt now key) all)
    → All (λ a. is_stale now a ≡ true → Any (StaleAt now (key_of a.metadata)) all) rest
deletable now all [] f = tt
deletable now all (a ∷ rest) f =
    ((λ stale. f _ (inl (stale, refl))), deletable now all rest (λ key h. f key (inr h)))

module _ {C : Type 0} where
  pub count_agents-ok : (items : List A2aAgent) (w : World C) → (count_agents items w).0 ≡ ok tt
  unfolding count_agents ◌>>=◌
  count_agents-ok [] w = refl
  count_agents-ok (a ∷ items) w = count_agents-ok items _

  count_agents-Extends :
      {P : Effect → Type 0} {old : List Effect}
      → ((m : MetricCall) → P (metric m))
      → (items : List A2aAgent) (w : World C) → Extends P old w.trace
      → Extends P old (count_agents items w).1.trace
  unfolding count_agents ◌>>=◌
  count_agents-Extends metrics [] w h = h
  count_agents-Extends metrics (a ∷ items) w h =
      count_agents-Extends metrics items _ (more (metrics _) h)

module _ {C Sel : Type 0} (std : Std) (K : KubeClient C Sel) (U : ControllerUtil) (now : Time) where
  module _ {P : Effect → Type 0} {old : List Effect} (events : (e : Event) → P (recorded e)) where
    prune_agent-Extends :
        (a : A2aAgent) (w : World C)
        → (is_stale now a ≡ true → P (wrote (delete_agent (key_of a.metadata))))
        → Extends P old w.trace
        → Extends P old (prune_agent std K U now a w).trace
    unfolding prune_agent
    prune_agent-Extends a w may h = elim (Bool-cases (is_stale now a)) [
      | inl stale ↦ rw stale (more (may stale) (more (events _) h))
      | inr fresh ↦ rw fresh h
    ]

    prune-Extends :
        (items : List A2aAgent) (w : World C)
        → All (λ a. is_stale now a ≡ true → P (wrote (delete_agent (key_of a.metadata)))) items
        → Extends P old w.trace
        → Extends P old (prune std K U now items w).trace
    unfolding prune
    prune-Extends [] w may h = h
    prune-Extends (a ∷ items) w may h =
        prune-Extends items (prune_agent std K U now a w) may.1 (prune_agent-Extends a w may.0 h)

    announce-Extends :
        {A : Type 0} (h : A2aRegistry) (total healthy : ℤ) (x : A) (w : World C)
        → Extends P old w.trace
        → Extends P old ((announce std K U now h total healthy >> pure x) w).1.trace
    unfolding announce ◌>>=◌
    announce-Extends h total healthy x w e =
        elim (Bool-cases
          (not (eqb_ℤ h.status.agent_count total) || not (eqb_ℤ h.status.healthy_agents healthy))) [
            | inl differ ↦ rw differ (more (events _) e)
            | inr agree ↦ rw agree e
          ]

    status-Extends :
        {A : Type 0} (h : A2aRegistry) (f : A2aRegistry → Exec C A) (w : World C)
        → P (wrote (status_update_registry h))
        → ((g : A2aRegistry) (w' : World C)
            → Extends P old w'.trace
            → Extends P old (f g w').1.trace)
        → Extends P old w.trace
        → Extends P old ((status_update_reg K h >>= f) w).1.trace
    unfolding ◌>>=◌
    status-Extends h f w p next e = elim (Result-cases (K.status_update_registry w.cluster h).0) [
      | inl (g, sent) ↦ rw sent (next g _ (more p e))
      | inr (x, sent) ↦ rw sent (more p e)
    ]

  -- Whatever the server answers: a run that has listed the agents writes nothing but deletes of
  -- agents of the list that are stale, and the status of this registry, which is Active and has the
  -- number of the listed agents and of those that are enabled and healthy, both as an int32.
  pub track-TrackEffect :
      (g : A2aRegistry) (items : List A2aAgent) (s : Option Server) (w : World C)
      → Extends (TrackEffect now g items) w.trace (track std K U now g items s w).1.trace
  unfolding track ◌>>=◌ active_status
  track-TrackEffect g items s w = rw (count_agents-ok items _) (
      status-Extends (λ e. tt) _ _ _ (refl, refl, refl, refl, refl)
        (λ g' w' e. announce-Extends (λ e. tt) g' _ _ _ w' e)
        (prune-Extends (λ e. tt) items _ (deletable now items items (λ key h. h))
          (count_agents-Extends (λ m. tt) items _ (more tt same))))
