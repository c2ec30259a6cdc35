-- ===== src/AgentController/Reconcile.antt =====
-- `Reconcile` of controllers/a2aagent_controller.go: the reads, the branches and the writes.
use a2a_registry.Common.{String, List, ◌++◌, Option, none, some, ok, err, ◌==◌, if◌then◌else◌}
use a2a_registry.Common.Int32.{ℤ, pos}
use a2a_registry.Api.{Time, ObjectKey, A2aAgent, A2aRegistrySpec, pending, same_phase}
use a2a_registry.Conditions.{a2a_finalizer}
use a2a_registry.Platform.{
  Std, KubeClient, ControllerUtil, Exec, pure, gets, emit, ◌>>=◌, ◌>>◌, update, status_update,
  Effect, metric, recorded, event_type_normal, registrations_total_inc, deregistrations_total_inc,
}
use a2a_registry.Resolver.{Network}
use a2a_registry.HealthCheck.{check_with_auth}
use a2a_registry.AgentController.Checks.{
  check_url_conflict, get_registry_config, build_auth_config, is_approved, interval_seconds,
  requires_approval, skips_health_check,
}
use a2a_registry.AgentController.Steps.{
  mark_conflict, mark_disabled, mark_registered, mark_waiting, mark_approved, mark_unchecked,
  finish, judge,
}

-- `ctrl.Result`: none, or the seconds of `RequeueAfter`.
abbrev pub Requeue : Type 0
Requeue = Option ℤ

abbrev pub set_finalizers : A2aAgent → List String → A2aAgent
set_finalizers a fs = record a { metadata = record a.metadata { finalizers = fs } }

module _ {C : Type 0} where
  -- The effects that a step adds to the trace, with its result.
  abbrev traced : {A : Type 0} → (List Effect → A × List Effect) → Exec C A
  traced f w = let (a, t) = f w.trace in (ok a, record w { trace = t })

module _ {C Sel : Type 0} (std : Std) (K : KubeClient C Sel) (U : ControllerUtil) where
  abbrev pub removed_event : A2aAgent → Effect
  removed_event a = recorded (record {
    object = a.metadata;
    type = event_type_normal;
    reason = "FinalizerRemoved";
    message = "Agent deletion completed.";
  })

  -- The branch of an agent with a deletion timestamp.
  unfoldable pub finalize : A2aAgent → Exec C Requeue
  unfolding ◌>>=◌
  finalize a =
      if U.contains_finalizer a.metadata.finalizers a2a_finalizer
      then (do
        a' ← update K (set_finalizers a (U.remove_finalizer a.metadata.finalizers a2a_finalizer))
        emit (metric deregistrations_total_inc)
        emit (removed_event a')
        pure none)
      else pure none

  unfoldable pub ensure_finalizer : A2aAgent → Exec C A2aAgent
  ensure_finalizer a =
      if U.contains_finalizer a.metadata.finalizers a2a_finalizer
      then pure a
      else update K (set_finalizers a (U.add_finalizer a.metadata.finalizers a2a_finalizer))

  module _ (net : Network) (now : Time) where
    -- The time of the registration, and its metric, if there is none yet.
    unfoldable pub register_at : Option Time → A2aAgent → Exec C A2aAgent
    unfolding ◌>>=◌
    register_at (some _) a = pure a
    register_at none a = do emit (metric registrations_total_inc); pure (mark_registered now a)

    unfoldable pub register : A2aAgent → Exec C A2aAgent
    unfolding register_at
    register a = register_at a.status.registered_at a

    unfoldable pub on_conflict : String → A2aAgent → Exec C Requeue
    unfolding ◌>>=◌
    on_conflict conflict a = do status_update K (mark_conflict conflict a); pure (some (pos 300))

    unfoldable pub on_disabled : A2aAgent → Exec C Requeue
    unfolding ◌>>=◌
    on_disabled a =
        if same_phase a.status.phase pending
        then pure none
        else (do status_update K (mark_disabled a); pure none)

    unfoldable pub on_waiting : A2aAgent → Exec C Requeue
    unfolding ◌>>=◌
    on_waiting a = do status_update K (mark_waiting now a); pure (some (pos 30))

    unfoldable pub check_health : C → Option A2aRegistrySpec → A2aAgent → Exec C A2aAgent
    unfolding check_with_auth
    check_health c cfg a =
        if skips_health_check cfg
        then pure (mark_unchecked now a)
        else (let (r, effects) = check_with_auth std net a (build_auth_config K c a) in
            traced λ trace. judge std now cfg r a (effects ++ trace))

    -- What follows the test for approval.
    unfoldable pub on_admitted : Option A2aRegistrySpec → A2aAgent → Exec C Requeue
    unfolding ◌>>=◌ check_health
    on_admitted cfg a = do
      c ← gets (λ c. c)
      a' ← check_health c cfg a
      status_update K (finish now a')
      pure (some (interval_seconds cfg a))

    unfoldable pub on_enabled : A2aAgent → Exec C Requeue
    unfolding ◌>>=◌
    on_enabled a = do
      cfg ← gets (get_registry_config K)
      if requires_approval cfg
          then (if is_approved a then on_admitted cfg (mark_approved now a) else on_waiting a)
          else on_admitted cfg a

    -- What follows the registration.
    unfoldable pub on_registered : A2aAgent → Exec C Requeue
    unfolding ◌>>=◌
    on_registered a = do
      conflict ← gets (λ c. check_url_conflict std K c a)
      if conflict == ""
          then (if a.spec.enabled then on_enabled a else on_disabled a)
          else on_conflict conflict a

    -- What follows the handling of the finalizer.
    unfoldable pub reconcile_live : A2aAgent → Exec C Requeue
    unfolding ◌>>=◌ register
    reconcile_live found = do a ← register found; on_registered a

    abbrev pub by_deletion : Option Time → A2aAgent → Exec C Requeue
    by_deletion (some _) a = finalize a
    by_deletion none a = do a' ← ensure_finalizer a; reconcile_live a'

    unfoldable pub reconcile_found : A2aAgent → Exec C Requeue
    unfolding ◌>>=◌
    reconcile_found a = by_deletion a.metadata.deletion_timestamp a

    unfoldable pub reconcile : ObjectKey → Exec C Requeue
    reconcile key w = elim (K.get_agent w.cluster key) [
      | err e ↦ if e.is_not_found then (ok none, w) else (err e, w)
      | ok a ↦ reconcile_found a w
    ]
