-- ===== src/System/Tracking.antt =====
-- The registry's reconciler keeps every status coherent.
use a2a_registry.Common.{
  List, [], ◌∷◌, Option, none, some, ok, Result-cases, inl, inr, Bool-cases, not, ◌||◌, length,
}
use a2a_registry.Common.Int32.{ℤ, pos, eqb_ℤ, to_int32}
use a2a_registry.Api.{Time, ObjectKey, A2aAgent, A2aAgentStatus, A2aRegistry}
use a2a_registry.Conditions.{a2a_finalizer}
use a2a_registry.Platform.{Std, KubeClient, ControllerUtil, World, metric, agent_count_reset}
use a2a_registry.Server.{Server}
use a2a_registry.RegistryController.{
  is_stale, count_healthy, count_agents, prune_agent, prune, finalize, ensure_finalizer, announce,
  track, tracking_event, reconcile_live, by_deletion, reconcile_registry, active_status,
  set_finalizers, push_config,
}
use a2a_registry.System.Programs.{Safe, Done, done, emits}
use a2a_registry.System.Keeps.{
  StatusStore, AllHeld, emit-Keeps, bind-Keeps, update_reg-Keeps, status_update_reg-Keeps, if-Keeps,
}
use a2a_registry.System.Coherence.{IsCoherent}

module _ {C Sel : Type 0} {K : KubeClient C Sel} {Holds : C → A2aAgentStatus → Type 0}
    (store : StatusStore K Holds) where
  count_agents-Safe : (items : List A2aAgent) → Safe store Done (count_agents items)
  unfolding count_agents
  count_agents-Safe [] = done store tt
  count_agents-Safe (a ∷ items) = emits store _ _ (count_agents-Safe items)

  module _ (std : Std) (U : ControllerUtil) (now : Time) where
    prune_agent-AllHeld :
        (a : A2aAgent) (w : World C)
        → AllHeld store IsCoherent w.cluster
        → AllHeld store IsCoherent (prune_agent std K U now a w).cluster
    unfolding prune_agent
    prune_agent-AllHeld a w all = elim (Bool-cases (is_stale now a)) [
      | inl stale ↦ rw stale λ s h. all s (store.delete_agent w.cluster _ s h)
      | inr fresh ↦ rw fresh all
    ]

    prune-AllHeld :
        (items : List A2aAgent) (w : World C)
        → AllHeld store IsCoherent w.cluster
        → AllHeld store IsCoherent (prune std K U now items w).cluster
    unfolding prune
    prune-AllHeld [] w all = all
    prune-AllHeld (a ∷ items) w all =
        prune-AllHeld items (prune_agent std K U now a w) (prune_agent-AllHeld a w all)

    prune-Safe :
        (items : List A2aAgent)
        → Safe store (Done {A = Unit {0}}) (λ w. (ok tt, prune std K U now items w))
    prune-Safe items = record { run = λ w all. (prune-AllHeld items w all, tt) }

    finalize-Safe :
        (g : A2aRegistry) (s : Option Server) → Safe store Done (finalize std K U now g s)
    unfolding finalize
    finalize-Safe g s =
        if-Keeps store IsCoherent _ (U.contains_finalizer g.metadata.finalizers a2a_finalizer) _ _
          (bind-Keeps store IsCoherent _ _ _ _
            (update_reg-Keeps store IsCoherent (
              set_finalizers std K U now g
                (U.remove_finalizer g.metadata.finalizers a2a_finalizer)))
            λ _ _. done store (none, s))
          (done store (none, s))

    ensure_finalizer-Safe : (g : A2aRegistry) → Safe store Done (ensure_finalizer std K U now g)
    unfolding ensure_finalizer
    ensure_finalizer-Safe g =
        if-Keeps store IsCoherent _ (U.contains_finalizer g.metadata.finalizers a2a_finalizer) _ _
          (done store g)
          (update_reg-Keeps store IsCoherent
            (set_finalizers std K U now g (U.add_finalizer g.metadata.finalizers a2a_finalizer)))

    announce-Safe :
        (g : A2aRegistry) (total healthy : ℤ)
        → Safe store Done (announce std K U now g total healthy)
    unfolding announce
    announce-Safe g total healthy =
        if-Keeps store IsCoherent _
          (not (eqb_ℤ g.status.agent_count total) || not (eqb_ℤ g.status.healthy_agents healthy)) _
          _ (emit-Keeps store IsCoherent (tracking_event std K U now g total healthy))
          (done store tt)

    track-Safe :
        (g : A2aRegistry) (items : List A2aAgent) (s : Option Server)
        → Safe store Done (track std K U now g items s)
    unfolding track
    track-Safe g items s =
        let total = to_int32 (length items) in
        let healthy = count_healthy items (pos 0) in
        emits store (metric agent_count_reset) _ (
          bind-Keeps store IsCoherent _ _ _ _ (count_agents-Safe items) λ _ _.
            bind-Keeps store IsCoherent _ _ _ _ (prune-Safe items) λ _ _.
              bind-Keeps store IsCoherent _ _ _ _
                (status_update_reg-Keeps store IsCoherent (active_status now total healthy g))
                λ g' _.
                  bind-Keeps store IsCoherent _ _ _ _ (announce-Safe g' total healthy)
                    λ _ _. done store (some (pos 30), push_config g' s))

    reconcile_live-Safe :
        (g : A2aRegistry) (s : Option Server) → Safe store Done (reconcile_live std K U now g s)
    reconcile_live-Safe g s = record {
      run = λ w all. elim (Result-cases (K.list_agents w.cluster [])) [
        | inl (items, e) ↦ rw (e, reconcile_live) ((track-Safe g items s).run w all)
        | inr (x, e) ↦ rw (e, reconcile_live) (all, tt)
      ];
    }

    by_deletion-Safe :
        (o : Option Time) (g : A2aRegistry) (s : Option Server)
        → Safe store Done (by_deletion std K U now o g s)
    by_deletion-Safe (some t) g s = finalize-Safe g s
    by_deletion-Safe none g s =
        bind-Keeps store IsCoherent _ _ _ _ (ensure_finalizer-Safe g)
          λ g' _. reconcile_live-Safe g' s

    pub reconcile_registry-AllHeld :
        (key : ObjectKey) (s : Option Server) (w : World C)
        → AllHeld store IsCoherent w.cluster
        → AllHeld store IsCoherent (reconcile_registry std K U now key s w).1.cluster
    unfolding reconcile_registry
    reconcile_registry-AllHeld key s w all = elim (Result-cases (K.get_registry w.cluster key)) [
      | inl (g, e) ↦
          rw (e, reconcile_registry)
            ((by_deletion-Safe g.metadata.deletion_timestamp g s).run w all).0
      | inr (x, e) ↦ elim (Bool-cases x.is_not_found) [
        | inl gone ↦ rw (e, gone, reconcile_registry) all
        | inr other ↦ rw (e, other, reconcile_registry) all
      ]
    ]
