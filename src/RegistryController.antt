-- ===== src/RegistryController.antt =====
-- controllers/a2aregistry_controller.go.
pub mod Counts
pub mod Prune
pub mod Runs
pub mod Laws
pub mod Safety
use a2a_registry.Common.{
  ℕ, ◌+◌, ◌*◌, ◌^◌, String, ◌<>◌, List, [], ◌∷◌, Bool, true, false, not, ◌&&◌, ◌||◌, Option, none,
  some, Result, ok, err, ◌==◌, ltb, length, if◌then◌else◌,
}
use a2a_registry.Common.Int32.{ℤ, pos, inc_int32, to_int32, eqb_ℤ}
use a2a_registry.Api.{
  Time, ObjectKey, ObjectMeta, A2aAgent, A2aRegistry, A2aRegistryStatus, Condition, condition_true,
  unreachable, same_phase, is_healthy,
}
use a2a_registry.Conditions.{a2a_finalizer, merge_condition}
use a2a_registry.Platform.{
  Std, KubeClient, ControllerUtil, KubeError, World, Exec, pure, raise, lift, emit, attempt, ◌>>=◌,
  ◌>>◌, delete, update_reg, status_update_reg, Effect, metric, recorded, event_type_normal,
  agent_count_reset, agent_count_inc,
}
use a2a_registry.Handler.Entry.{or_default}
use a2a_registry.Server.{Server, update_server_config}

-- What the reconciler asks for, and the API server that it leaves.
abbrev pub Outcome : Type 0
Outcome = Option ℤ × Option Server

-- The loop that counts.
unfoldable pub count_healthy : List A2aAgent → ℤ → ℤ
count_healthy [] n = n
count_healthy (a ∷ items) n =
    count_healthy items (if a.spec.enabled && is_healthy a.status.health then inc_int32 n else n)

-- Seven days, in nanoseconds.
abbrev pub week : ℕ
week = 604800000000000

abbrev beats_before : Time → Option Time → Bool
beats_before now none = false
beats_before now (some t) = ltb (t + week) now

-- Unreachable, with a heartbeat that is older than the cutoff.
unfoldable pub is_stale : Time → A2aAgent → Bool
is_stale now a = same_phase a.status.phase unreachable && beats_before now a.status.last_heartbeat

unfoldable pub active_status : Time → ℤ → ℤ → A2aRegistry → A2aRegistry
active_status now total healthy g = record g {
  status = record {
    phase = "Active";
    agent_count = total;
    healthy_agents = healthy;
    conditions = merge_condition g.status.conditions (record {
      type = "Ready";
      status = condition_true;
      observed_generation = g.metadata.generation;
      last_transition_time = now;
      reason = "RegistryActive";
      message = "Registry is active and tracking agents.";
    });
  };
}

abbrev pub push_config : A2aRegistry → Option Server → Option Server
push_config g none = none
push_config g (some s) = some (update_server_config g.spec.discovery s)

module _ {C : Type 0} where
  -- The metric of each agent.
  unfoldable pub count_agents : List A2aAgent → Exec C (Unit {0})
  unfolding ◌>>=◌
  count_agents [] = pure tt
  count_agents (a ∷ items) = do
    emit (
        metric (
          agent_count_inc (or_default a.status.phase "Pending")
            (or_default a.status.health "Unknown")))
    count_agents items

abbrev pub key_of : ObjectMeta → ObjectKey
key_of m = record { namespace = m.namespace; name = m.name }

abbrev heartbeat_text : Std → Option Time → String
heartbeat_text std none = ""
heartbeat_text std (some t) = std.format_rfc3339 t

abbrev pub pruned_event : Std → A2aAgent → Effect
pruned_event std a = recorded (record {
  object = a.metadata;
  type = event_type_normal;
  reason = "AgentPruned";
  message =
      "Agent has been unreachable since "
      <> (heartbeat_text std a.status.last_heartbeat <> " and was automatically removed.");
})

module _ {C Sel : Type 0} (std : Std) (K : KubeClient C Sel) (U : ControllerUtil) (now : Time) where
  -- A failed delete is logged, and the loop goes on.
  unfoldable pub prune_agent : A2aAgent → World C → World C
  prune_agent a w =
      if is_stale now a
      then (delete K (key_of a.metadata) ((emit (pruned_event std a) w).1)).1
      else w

  unfoldable pub prune : List A2aAgent → World C → World C
  unfolding prune_agent
  prune [] w = w
  prune (a ∷ items) w = prune items (prune_agent a w)

  abbrev pub set_finalizers : A2aRegistry → List String → A2aRegistry
  set_finalizers g fs = record g { metadata = record g.metadata { finalizers = fs } }

  unfoldable pub finalize : A2aRegistry → Option Server → Exec C Outcome
  unfolding ◌>>=◌
  finalize g s =
      if U.contains_finalizer g.metadata.finalizers a2a_finalizer
      then (do
        update_reg K (set_finalizers g (U.remove_finalizer g.metadata.finalizers a2a_finalizer))
        pure (none, s))
      else pure (none, s)

  unfoldable pub ensure_finalizer : A2aRegistry → Exec C A2aRegistry
  ensure_finalizer g =
      if U.contains_finalizer g.metadata.finalizers a2a_finalizer
      then pure g
      else update_reg K (set_finalizers g (U.add_finalizer g.metadata.finalizers a2a_finalizer))

  abbrev pub tracking_event : A2aRegistry → ℤ → ℤ → Effect
  tracking_event g total healthy = recorded (record {
    object = g.metadata;
    type = event_type_normal;
    reason = "RegistryActive";
    message =
        "Registry tracking "
        <> (std.format_int total <> (" agents (" <> (std.format_int healthy <> " healthy).")));
  })

  -- The event after the status is written, if the written object differs from the counts.
  unfoldable pub announce : A2aRegistry → ℤ → ℤ → Exec C (Unit {0})
  announce g total healthy =
      if not (eqb_ℤ g.status.agent_count total) || not (eqb_ℤ g.status.healthy_agents healthy)
      then emit (tracking_event g total healthy)
      else pure tt

  -- What follows the list of the agents.
  unfoldable pub track : A2aRegistry → List A2aAgent → Option Server → Exec C Outcome
  unfolding ◌>>=◌
  track g items s = do
    let total = to_int32 (length items)
    let healthy = count_healthy items (pos 0)
    emit (metric agent_count_reset)
    count_agents items
    λ w. (ok tt, prune items w)
    g' ← status_update_reg K (active_status now total healthy g)
    announce g' total healthy
    pure (some (pos 30), push_config g' s)

  abbrev pub reconcile_live : A2aRegistry → Option Server → Exec C Outcome
  reconcile_live g s w = elim (K.list_agents w.cluster []) [
    | err e ↦ (err e, w)
    | ok items ↦ track g items s w
  ]

  abbrev pub by_deletion : Option Time → A2aRegistry → Option Server → Exec C Outcome
  by_deletion (some _) g s = finalize g s
  by_deletion none g s = do g' ← ensure_finalizer g; reconcile_live g' s

  unfoldable pub reconcile_registry : ObjectKey → Option Server → Exec C Outcome
  unfolding ◌>>=◌
  reconcile_registry key s w = elim (K.get_registry w.cluster key) [
    | err e ↦ if e.is_not_found then (ok (none, s), w) else (err e, w)
    | ok g ↦ by_deletion g.metadata.deletion_timestamp g s w
  ]
