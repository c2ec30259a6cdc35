-- ===== src/System/Runs.antt =====
-- The reconcilers keep every status coherent.
use a2a_registry.Common.{Option, none, some, Result-cases, inl, inr, Bool-cases, ◌==◌}
use a2a_registry.Common.Int32.{pos}
use a2a_registry.Api.{
  Time, ObjectKey, A2aAgent, A2aAgentStatus, A2aRegistrySpec, pending, same_phase,
}
use a2a_registry.Platform.{
  Std, KubeClient, ControllerUtil, World, metric, deregistrations_total_inc, pure,
}
use a2a_registry.Resolver.{Network}
use a2a_registry.Conditions.{a2a_finalizer}
use a2a_registry.AgentController.Checks.{
  check_url_conflict, get_registry_config, is_approved, requires_approval, skips_health_check,
}
use a2a_registry.AgentController.Steps.{
  mark_conflict, mark_disabled, mark_registered, mark_waiting, mark_approved, mark_unchecked,
  finish,
}
use a2a_registry.AgentController.Reconcile.{
  removed_event, finalize, ensure_finalizer, register_at, on_conflict, on_disabled, on_waiting,
  check_health, on_admitted, on_enabled, on_registered, reconcile_live, by_deletion,
  reconcile_found, reconcile,
}
use a2a_registry.System.Programs.{Safe, Coherent, Done, done, kept, written, reads, emits}
use a2a_registry.System.Keeps.{StatusStore, AllHeld, emit-Keeps, bind-Keeps, update-Keeps, if-Keeps}
use a2a_registry.System.Coherence.{
  IsCoherent, mark_conflict-IsCoherent, mark_disabled-IsCoherent, mark_waiting-IsCoherent,
  mark_unchecked-IsCoherent, mark_registered-IsCoherent, finish-IsCoherent, judge-IsCoherent,
}

module _ {C Sel : Type 0} {K : KubeClient C Sel} {Holds : C → A2aAgentStatus → Type 0}
    (store : StatusStore K Holds) where
  module _ (std : Std) (U : ControllerUtil) where
    finalize-Safe : (a : A2aAgent) → Coherent a → Safe store Done (finalize std K U a)
    unfolding finalize
    finalize-Safe a c =
        if-Keeps store IsCoherent _ (U.contains_finalizer a.metadata.finalizers a2a_finalizer) _ _
          (bind-Keeps store IsCoherent _ _ _ _ (update-Keeps store IsCoherent _ c) λ a' _.
            emits store (metric deregistrations_total_inc) _
              (emits store (removed_event std K U a') (pure none) (done store none)))
          (done store _)

    ensure_finalizer-Safe :
        (a : A2aAgent) → Coherent a → Safe store Coherent (ensure_finalizer std K U a)
    unfolding ensure_finalizer
    ensure_finalizer-Safe a c =
        if-Keeps store IsCoherent _ (U.contains_finalizer a.metadata.finalizers a2a_finalizer) _ _
          (kept store a c) (update-Keeps store IsCoherent _ c)

    module _ (net : Network) (now : Time) where
      register_at-Safe :
          (o : Option Time) (a : A2aAgent)
          → Coherent a
          → Safe store Coherent (register_at std K U net now o a)
      unfolding register_at
      register_at-Safe (some t) a c = kept store a c
      register_at-Safe none a c =
          bind-Keeps store IsCoherent _ _ _ _ (emit-Keeps store IsCoherent _)
            λ _ _. kept store (mark_registered now a) (mark_registered-IsCoherent now a c)

      check_health-Safe :
          (c : C) (cfg : Option A2aRegistrySpec) (a : A2aAgent)
          → Safe store Coherent (check_health std K U net now c cfg a)
      unfolding check_health
      check_health-Safe c cfg a =
          if-Keeps store IsCoherent _ (skips_health_check cfg) _ _
            (kept store (mark_unchecked now a) (mark_unchecked-IsCoherent now a))
            (record { run = λ w all. (all, judge-IsCoherent now std cfg _ a _) })

      on_admitted-Safe :
          (cfg : Option A2aRegistrySpec) (a : A2aAgent)
          → Safe store Done (on_admitted std K U net now cfg a)
      unfolding on_admitted
      on_admitted-Safe cfg a = reads store _ _ λ c.
          bind-Keeps store IsCoherent _ _ _ _ (check_health-Safe c cfg a)
            λ a' c'. written store (finish now a') _ (finish-IsCoherent now a' c')

      on_enabled-Safe : (a : A2aAgent) → Safe store Done (on_enabled std K U net now a)
      unfolding on_enabled on_waiting
      on_enabled-Safe a = reads store (get_registry_config K) _ λ cfg.
          if-Keeps store IsCoherent _ (requires_approval cfg) _ _
            (if-Keeps store IsCoherent _ (is_approved a) _ _
              (on_admitted-Safe cfg (mark_approved now a))
              (written store (mark_waiting now a) (some (pos 30)) (mark_waiting-IsCoherent now a)))
            (on_admitted-Safe cfg a)

      on_registered-Safe : (a : A2aAgent) → Safe store Done (on_registered std K U net now a)
      unfolding on_registered on_disabled on_conflict
      on_registered-Safe a =
          reads store (λ c. check_url_conflict std K c a) _
            λ conflict.
              if-Keeps store IsCoherent _ (conflict == "") _ _
                (if-Keeps store IsCoherent _ a.spec.enabled _ _ (on_enabled-Safe a) (
                  if-Keeps store IsCoherent _ (same_phase a.status.phase pending) _ _
                    (done store none)
                    (written store (mark_disabled a) none (mark_disabled-IsCoherent a))))
                (written store (mark_conflict conflict a) (some (pos 300))
                  (mark_conflict-IsCoherent conflict a))

      by_deletion-Safe :
          (o : Option Time) (a : A2aAgent)
          → Coherent a
          → Safe store Done (by_deletion std K U net now o a)
      unfolding reconcile_live
      by_deletion-Safe (some t) a c = finalize-Safe a c
      by_deletion-Safe none a c =
          bind-Keeps store IsCoherent _ _ _ _ (ensure_finalizer-Safe a c) λ a' c'.
            bind-Keeps store IsCoherent _ _ _ _ (register_at-Safe a'.status.registered_at a' c')
              λ b _. on_registered-Safe b

      pub reconcile-Safe :
          (key : ObjectKey) (w : World C)
          → AllHeld store IsCoherent w.cluster
          → AllHeld store IsCoherent (reconcile std K U net now key w).1.cluster
      unfolding reconcile reconcile_found
      reconcile-Safe key w all = elim (Result-cases (K.get_agent w.cluster key)) [
        | inl (a, e) ↦
            rw (e, reconcile)
              ((by_deletion-Safe a.metadata.deletion_timestamp a
                  (all a.status (store.get_agent w.cluster key a e))).run
                w all).0
        | inr (x, e) ↦ elim (Bool-cases x.is_not_found) [
          | inl gone ↦ rw (e, gone, reconcile) all
          | inr other ↦ rw (e, other, reconcile) all
        ]
      ]
