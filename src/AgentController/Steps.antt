-- ===== src/AgentController/Steps.antt =====
-- The changes of an agent's status in controllers/a2aagent_controller.go, one function for each
-- branch of the reconciler. `now` is what `metav1.Now` returns during the run.
use a2a_registry.Common.{
  String, ◌<>◌, List, ◌∷◌, Bool, true, false, ◌||◌, Option, none, some, ◌==◌, if◌then◌else◌,
}
use a2a_registry.Common.Int32.{pos, leb_ℤ, inc_int32}
use a2a_registry.Api.{
  Time, A2aAgent, A2aAgentStatus, A2aAgentPhase, pending, ready, error, unreachable, healthy,
  unhealthy, unknown, same_phase, is_healthy, Condition, condition_true, condition_false,
  A2aRegistrySpec,
}
use a2a_registry.Conditions.{merge_condition, condition_type_approved}
use a2a_registry.Platform.{
  AgentCard, Std, Effect, recorded, EventType, event_type_normal, event_type_warning, metric,
  health_check_duration_observe, health_check_failures_total_inc,
}
use a2a_registry.HealthCheck.{HealthResult}
use a2a_registry.AgentController.Checks.{check_card_match, failure_threshold, requires_card_match}

abbrev pub set_status : A2aAgent → A2aAgentStatus → A2aAgent
set_status a s = record a { status = s }

abbrev pub event : A2aAgent → EventType → String → String → Effect
event a type reason message =
    recorded (record { object = a.metadata; type = type; reason = reason; message = message })

-- The status after a conflict of URLs.
unfoldable pub mark_conflict : String → A2aAgent → A2aAgent
mark_conflict conflict a =
    set_status a (record a.status { phase = error; health = unhealthy; message = conflict })

unfoldable pub mark_disabled : A2aAgent → A2aAgent
mark_disabled a =
    set_status a
      (record a.status { phase = pending; health = unknown; message = "Agent is disabled." })

unfoldable pub mark_registered : Time → A2aAgent → A2aAgent
mark_registered now a = set_status a (record a.status { registered_at = some now })

abbrev pub approved_condition : Time → A2aAgent → Condition
approved_condition now a = record {
  type = condition_type_approved;
  status = condition_true;
  observed_generation = a.metadata.generation;
  last_transition_time = now;
  reason = "Approved";
  message = "Agent has been approved.";
}

abbrev pub pending_condition : Time → A2aAgent → Condition
pending_condition now a = record {
  type = condition_type_approved;
  status = condition_false;
  observed_generation = a.metadata.generation;
  last_transition_time = now;
  reason = "PendingApproval";
  message = "Agent requires manual approval.";
}

unfoldable pub mark_waiting : Time → A2aAgent → A2aAgent
mark_waiting now a = set_status a (record a.status {
  phase = pending;
  health = unknown;
  message = "Waiting for approval.";
  conditions = merge_condition a.status.conditions (pending_condition now a);
})

unfoldable pub mark_approved : Time → A2aAgent → A2aAgent
mark_approved now a = set_status a (record a.status {
  conditions = merge_condition a.status.conditions (approved_condition now a);
})

unfoldable pub mark_unchecked : Time → A2aAgent → A2aAgent
mark_unchecked now a = set_status a (record a.status {
  phase = ready;
  health = healthy;
  last_heartbeat = some now;
  message = "Health check disabled by registry configuration.";
  consecutive_failures = pos 0;
})

abbrev pub ready_condition : Time → A2aAgent → Condition
ready_condition now a = record {
  type = "Ready";
  status = if same_phase a.status.phase ready then condition_true else condition_false;
  observed_generation = a.metadata.generation;
  last_transition_time = now;
  reason = if same_phase a.status.phase ready then "AgentReady" else "AgentNotReady";
  message =
      if same_phase a.status.phase ready
      then "Agent is registered and healthy."
      else a.status.message;
}

abbrev pub health_condition : Time → Bool → A2aAgent → Condition
health_condition now ok a = record {
  type = "HealthChecked";
  status = if ok then condition_true else condition_false;
  observed_generation = a.metadata.generation;
  last_transition_time = now;
  reason = if ok then "HealthCheckPassed" else "HealthCheckFailed";
  message = if ok then "Agent is reachable and healthy." else a.status.message;
}

unfoldable pub update_conditions : Time → Bool → A2aAgent → A2aAgent
update_conditions now ok a = set_status a (record a.status {
  conditions =
      merge_condition (merge_condition a.status.conditions (health_condition now ok a))
        (ready_condition now a);
})

-- The end of the reconciler, before the status is written.
unfoldable pub finish : Time → A2aAgent → A2aAgent
unfolding update_conditions
finish now a =
    let observed = set_status a (record a.status { observed_generation = a.metadata.generation }) in
    update_conditions now (is_healthy a.status.health) observed

module _ (std : Std) where
  abbrev pub mark_healthy : Time → HealthResult → A2aAgent → A2aAgent
  mark_healthy now r a = set_status a (record a.status {
    phase = ready;
    health = healthy;
    last_heartbeat = some now;
    message = "Health check passed in " <> (std.format_duration r.latency <> ".");
    agent_card_hash = if r.card_hash == "" then a.status.agent_card_hash else r.card_hash;
    consecutive_failures = pos 0;
  })

  abbrev pub recovered : A2aAgentPhase → A2aAgent → List Effect → List Effect
  recovered previous a trace =
      if same_phase previous error || same_phase previous unreachable
      then event a event_type_normal "HealthCheckRecovered"
          ("Agent recovered from " <> (previous <> " to Ready."))
        ∷ trace
      else trace

  abbrev pub mark_mismatch : String → A2aAgent → A2aAgent
  mark_mismatch mismatch a = set_status a (record a.status {
    phase = error;
    health = unhealthy;
    message = "Agent card mismatch: " <> mismatch;
  })

  abbrev pub judge_card : String → A2aAgent → List Effect → A2aAgent × List Effect
  judge_card mismatch a trace = if mismatch == "" then (a, trace) else (
    mark_mismatch mismatch a,
    event a event_type_warning "CardMismatch" ("Agent card does not match spec: " <> mismatch)
        ∷ trace,
  )

  abbrev pub match_card : Bool → Option AgentCard → A2aAgent → List Effect → A2aAgent × List Effect
  match_card false card a trace = (a, trace)
  match_card true none a trace = (a, trace)
  match_card true (some card) a trace = judge_card (check_card_match std a card) a trace

  -- The branch of a healthy result. The effects are added to a trace, the newest first.
  unfoldable pub on_healthy :
      Time → Option A2aRegistrySpec → HealthResult → A2aAgent → List Effect → A2aAgent × List Effect
  on_healthy now cfg r a trace =
      let a' = mark_healthy now r a in
      match_card (requires_card_match cfg) r.card a' (recovered a.status.phase a' trace)

  abbrev pub mark_failed : HealthResult → A2aAgent → A2aAgent
  mark_failed r a = set_status a (record a.status {
    health = unhealthy;
    message = "Health check failed: " <> r.error;
    consecutive_failures = inc_int32 a.status.consecutive_failures;
  })

  abbrev pub set_phase : A2aAgentPhase → A2aAgent → A2aAgent
  set_phase p a = set_status a (record a.status { phase = p })

  -- The branch of a failed result.
  unfoldable pub on_unhealthy : HealthResult → A2aAgent → List Effect → A2aAgent × List Effect
  unfolding failure_threshold
  on_unhealthy r a trace =
      let previous = a.status.phase in
      let a' = mark_failed r a in
      if leb_ℤ (failure_threshold a) a'.status.consecutive_failures
      then (
        set_phase unreachable a',
        if same_phase previous unreachable
            then trace
            else event a' event_type_warning "AgentUnreachable" (
                "Agent is unreachable after "
                <> (std.format_int a'.status.consecutive_failures
                    <> (" consecutive failures: " <> r.error)))
              ∷ trace,
      )
      else (
        set_phase error a',
        if same_phase previous error
            then trace
            else event a' event_type_warning "HealthCheckFailed"
                ("Health check failed: " <> r.error)
              ∷ trace,
      )

  -- The metrics of a health check, and the branch that its result takes.
  unfoldable pub judge :
      Time → Option A2aRegistrySpec → HealthResult → A2aAgent → List Effect → A2aAgent × List Effect
  unfolding on_healthy on_unhealthy
  judge now cfg r a trace =
      if r.healthy
      then on_healthy now cfg r a (metric (health_check_duration_observe r.latency) ∷ trace)
      else on_unhealthy r a (
          metric health_check_failures_total_inc
          ∷ metric (health_check_duration_observe r.latency)
          ∷ trace)
