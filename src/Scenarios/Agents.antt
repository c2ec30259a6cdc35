-- ===== src/Scenarios/Agents.antt =====
-- The theorems on the controllers, the conditions and the webhooks at concrete agents.
use mathlib.Core.List.{foldl}
use a2a_registry.Common.{◌+◌, ◌≤◌, [], ◌∷◌, false, none, some, ok, ◌≡◌, refl, arith, ◌↔◌}
use a2a_registry.Common.Int32.{pos, to_int32}
use a2a_registry.Api.{A2aAgent, unreachable}
use a2a_registry.Platform.{memory_client, list_util, ascii_std}
use a2a_registry.Platform.Memory.Laws.{memory_client-LawfulClient}
use a2a_registry.Conditions.{merge_condition, merge_registry_conditions}
use a2a_registry.Conditions.Laws.{
  condition_of, condition_of-merge_condition, DistinctTypes, merge_condition-DistinctTypes,
  merge_registry_conditions-eq,
}
use a2a_registry.AgentController.Checks.{failure_threshold, check_url_conflict, check_card_match}
use a2a_registry.AgentController.Reconcile.{reconcile, reconcile_live}
use a2a_registry.AgentController.Runs.{Run, reconcile-Run}
use a2a_registry.Platform.{key_of}
use a2a_registry.AgentController.Verdicts.{
  CardAgrees, check_card_match_iff, UrlUnique, check_url_conflict_iff,
}
use a2a_registry.AgentController.Failures.{run_checks, phase-run_checks, failures-run_checks}
use a2a_registry.AgentController.Safety.{Extends}
use a2a_registry.AgentController.Safety.Allowed.{AllowedEffect}
use a2a_registry.AgentController.Safety.Writes.{reconcile_live-AllowedEffect}
use a2a_registry.Webhook.AgentHook.{validate_a2a_agent, default_agent}
use a2a_registry.Webhook.AgentHook.Validation.{ValidSpec, validate_a2a_agent_iff}
use a2a_registry.GoStrings.{split}
use a2a_registry.Webhook.AgentHook.Admission.{Admitted, validate-default_agent}
use a2a_registry.Webhook.AgentHook.{url_errors, skill_errors, health_check_errors, version_errors}
use a2a_registry.Webhook.RegistryHook.{validate_a2a_registry, default_registry}
use a2a_registry.Webhook.RegistryHook.Laws.{ValidRegistrySpec, validate_a2a_registry_iff}
use a2a_registry.Webhook.RegistryHook.Admission.{FitsDefaults, validate-default_registry}
use a2a_registry.GoStrings.{to_lower}
use a2a_registry.Api.{A2aRegistry}
use a2a_registry.RegistryController.{is_stale, prune, active_status, count_healthy, week}
use a2a_registry.RegistryController.Counts.{active_status-counts}
use a2a_registry.RegistryController.Prune.{Deletes, ExpiredAt, Deletes-prune, pruned, trace-prune}
use a2a_registry.RegistryController.{track, reconcile_registry}
use a2a_registry.Common.{Any, ◌⊎◌}
use a2a_registry.RegistryController.Safety.{TrackEffect, track-TrackEffect}
use a2a_registry.RegistryController.Laws.{announcements, announcements-reconcile_registry}
use a2a_registry.Scenarios.Samples.{
  greeter, silent, strict, before, old_hosts, failed, passed, approved, card_of_greeter,
}

-- The approved agent, whose card is at the older path.
reconcile_live_example :
    Extends
      (AllowedEffect ascii_std memory_client old_hosts before.cluster greeter)
      []
      (reconcile_live ascii_std memory_client list_util old_hosts 100 greeter before).1.trace
reconcile_live_example =
    reconcile_live-AllowedEffect ascii_std memory_client old_hosts list_util 100 greeter before

reconcile_example :
    Run ascii_std memory_client list_util old_hosts 100 before
      (ok greeter)
      (reconcile ascii_std memory_client list_util old_hosts 100 (key_of greeter.metadata) before)
reconcile_example =
    reconcile-Run ascii_std memory_client list_util old_hosts 100 (key_of greeter.metadata) before

-- A pass, and two failures after it, at a threshold of two.
phase_example :
    (run_checks ascii_std
      (some strict.spec)
      ((30, failed) ∷ (20, failed) ∷ (10, passed) ∷ [])
      greeter).status.phase
    ≡ unreachable
unfolding failure_threshold
phase_example =
    phase-run_checks ascii_std (some strict.spec) ((20, failed) ∷ (10, passed) ∷ []) 30 failed
      greeter refl refl (omega arith)

failures_example :
    (run_checks ascii_std none
      ((20, failed) ∷ (10, passed) ∷ (5, failed) ∷ [])
      greeter).status.consecutive_failures
    ≡ pos 1
failures_example =
    failures-run_checks ascii_std none ((20, failed) ∷ (10, passed) ∷ (5, failed) ∷ []) greeter refl
      (omega arith)

url_conflict_example :
    (check_url_conflict ascii_std memory_client before.cluster greeter ≡ "")
    ↔ UrlUnique greeter (greeter ∷ silent ∷ [])
url_conflict_example =
    check_url_conflict_iff ascii_std memory_client before.cluster greeter (greeter ∷ silent ∷ [])
      refl

card_match_example :
    (check_card_match ascii_std greeter card_of_greeter ≡ "") ↔ CardAgrees greeter card_of_greeter
card_match_example = check_card_match_iff ascii_std greeter card_of_greeter

condition_example :
    condition_of "Approved" (merge_condition greeter.status.conditions approved) ≡ some approved
condition_example = condition_of-merge_condition "Approved" greeter.status.conditions approved

distinct_example : DistinctTypes (merge_condition greeter.status.conditions approved)
distinct_example = merge_condition-DistinctTypes greeter.status.conditions approved (tt, tt)

same_merge_example :
    merge_registry_conditions greeter.status.conditions approved
    ≡ merge_condition greeter.status.conditions approved
same_merge_example = merge_registry_conditions-eq greeter.status.conditions approved

valid_agent_example : (validate_a2a_agent ascii_std greeter ≡ []) ↔ ValidSpec ascii_std greeter.spec
valid_agent_example = validate_a2a_agent_iff ascii_std greeter

abbrev disabled : A2aAgent
disabled = record greeter { spec = record greeter.spec { enabled = false } }

validate-default_agent_example : Admitted (default_agent disabled).spec
unfolding default_agent validate_a2a_agent url_errors skill_errors health_check_errors
    version_errors split
validate-default_agent_example = validate-default_agent ascii_std disabled refl

valid_registry_example :
    (validate_a2a_registry ascii_std strict ≡ []) ↔ ValidRegistrySpec ascii_std strict.spec
valid_registry_example = validate_a2a_registry_iff ascii_std strict

-- An interval of five seconds and no timeout.
abbrev hasty : A2aRegistry
hasty = record strict {
  spec = record strict.spec {
    health_check = record { interval_seconds = pos 5; timeout_seconds = pos 0 };
  };
}

default_registry_example :
    (validate_a2a_registry ascii_std (default_registry hasty) ≡ [])
    ↔ ((validate_a2a_registry ascii_std hasty ≡ []) × FitsDefaults hasty.spec.health_check)
unfolding to_lower
default_registry_example = validate-default_registry ascii_std refl hasty

Deletes-prune_example :
    Deletes ascii_std memory_client list_util
      (week + 9)
      (key_of silent.metadata)
      (prune ascii_std memory_client list_util (week + 9) (greeter ∷ silent ∷ []) before).trace
    ↔ (Deletes ascii_std memory_client list_util (week + 9) (key_of silent.metadata) []
        ⊎ Any
            (ExpiredAt ascii_std memory_client list_util (week + 9) (key_of silent.metadata))
            (greeter ∷ silent ∷ []))
Deletes-prune_example =
    Deletes-prune ascii_std memory_client list_util (week + 9) (key_of silent.metadata)
      (greeter ∷ silent ∷ []) before

prune_example :
    (prune ascii_std memory_client list_util (week + 9) (greeter ∷ silent ∷ []) before).trace
    ≡ foldl (pruned ascii_std memory_client list_util (week + 9)) [] (silent ∷ [])
unfolding is_stale
prune_example =
    trace-prune ascii_std memory_client list_util (week + 9) (greeter ∷ silent ∷ []) before

track_example :
    Extends
      (TrackEffect (week + 9) strict (greeter ∷ silent ∷ []))
      []
      (track ascii_std memory_client list_util
        (week + 9)
        strict
        (greeter ∷ silent ∷ [])
        none
        before).1.trace
track_example =
    track-TrackEffect ascii_std memory_client list_util (week + 9) strict (greeter ∷ silent ∷ [])
      none before

counts_example :
    let s =
      (active_status 3
        (to_int32 2)
        (count_healthy (greeter ∷ silent ∷ []) (pos 0))
        strict).status in
    (s.agent_count ≡ pos 2) × (s.healthy_agents ≡ pos 0) × (0 ≤ 2)
counts_example = active_status-counts 3 strict (greeter ∷ silent ∷ []) (omega arith)

announcements_example :
    announcements
      (reconcile_registry ascii_std memory_client list_util 3
        (record { namespace = "outbound-agent"; name = "registry" })
        none
        before).1.trace
    ≡ 0
announcements_example =
    announcements-reconcile_registry ascii_std memory_client list_util 3 memory_client-LawfulClient
      (record { namespace = "outbound-agent"; name = "registry" }) none before
