-- ===== src/AgentController/Failures.antt =====
-- The phases of an agent under a sequence of health checks.
use a2a_registry.Common.{
  ℕ, ◌+◌, ◌-◌, ◌^◌, ◌<◌, ◌≤◌, List, [], ◌∷◌, length, false, Option, ◌≡◌, refl, ◌∙◌, arith,
  if◌then◌else◌,
}
use a2a_registry.Common.Int32.{pos, leb_ℤ, inc_int32, inc_int32_small}
use a2a_registry.Api.{Time, A2aAgent, A2aRegistrySpec, error, unreachable}
use a2a_registry.Platform.{Std}
use a2a_registry.HealthCheck.{HealthResult}
use a2a_registry.AgentController.Checks.{failure_threshold}
use a2a_registry.AgentController.Steps.{finish, judge}

-- A health check: when it ran, and its result.
abbrev pub Check : Type 0
Check = Time × HealthResult

-- How many of the last checks failed, since the last one that passed. The newest check comes first.
abbrev pub failures_in_a_row : List Check → ℕ
failures_in_a_row [] = 0
failures_in_a_row ((t, r) ∷ checks) = if r.healthy then 0 else failures_in_a_row checks + 1

failures_in_a_row-le : (checks : List Check) → failures_in_a_row checks ≤ length checks
failures_in_a_row-le [] = omega arith
failures_in_a_row-le ((t, r) ∷ checks) = ground (arith, failures_in_a_row-le checks)

module _ (std : Std) (cfg : Option A2aRegistrySpec) where
  -- The agent as the reconciler writes it back after a check.
  abbrev pub checked : Time → HealthResult → A2aAgent → A2aAgent
  checked now r a = finish now (judge std now cfg r a []).0

  -- After a sequence of checks, the newest first.
  abbrev pub run_checks : List Check → A2aAgent → A2aAgent
  run_checks [] a = a
  run_checks ((t, r) ∷ checks) a = checked t r (run_checks checks a)

  checked-spec : (t : Time) (r : HealthResult) (a : A2aAgent) → (checked t r a).spec ≡ a.spec
  unfolding finish judge
  checked-spec t r a = ground arith

  run_checks-spec : (checks : List Check) (a : A2aAgent) → (run_checks checks a).spec ≡ a.spec
  run_checks-spec [] a = refl
  run_checks-spec ((t, r) ∷ checks) a =
      checked-spec t r (run_checks checks a) ∙ run_checks-spec checks a

  threshold-run_checks :
      (checks : List Check) (a : A2aAgent)
      → failure_threshold (run_checks checks a) ≡ failure_threshold a
  unfolding failure_threshold
  threshold-run_checks checks a = rw (run_checks-spec checks a)

  failures-checked :
      (t : Time) (r : HealthResult) (a : A2aAgent)
      → (checked t r a).status.consecutive_failures
        ≡ (if r.healthy then pos 0 else inc_int32 a.status.consecutive_failures)
  unfolding finish judge
  failures-checked t r a = ground arith

  phase-checked :
      (t : Time) (r : HealthResult) (a : A2aAgent)
      → r.healthy ≡ false
      → (checked t r a).status.phase ≡ (
          if leb_ℤ (failure_threshold a) (inc_int32 a.status.consecutive_failures)
          then unreachable
          else error)
  unfolding finish judge
  phase-checked t r a h = ground arith

  -- From an agent with no failure, after fewer than 2 ^ 31 checks, the counter of the status is the
  -- number of failures in a row.
  pub failures-run_checks :
      (checks : List Check) (a : A2aAgent)
      → a.status.consecutive_failures ≡ pos 0
      → length checks < 2 ^ 31
      → (run_checks checks a).status.consecutive_failures ≡ pos (failures_in_a_row checks)
  failures-run_checks [] a h l = h
  failures-run_checks ((t, r) ∷ checks) a h l = ground (
    arith,
    failures-run_checks checks a h,
    failures-checked t r (run_checks checks a),
    inc_int32_small (failures_in_a_row checks),
    failures_in_a_row-le checks,
  )

  -- Take an agent with no failure and fewer than 2 ^ 31 checks, the last of which failed. The
  -- reconciler writes Unreachable if the number of failures in a row has reached the threshold,
  -- and Error if it has not.
  pub phase-run_checks :
      (checks : List Check) (t : Time) (r : HealthResult) (a : A2aAgent)
      → a.status.consecutive_failures ≡ pos 0
      → r.healthy ≡ false
      → length checks < 2 ^ 31 - 1
      → (run_checks ((t, r) ∷ checks) a).status.phase ≡ (
          if leb_ℤ (failure_threshold a) (pos (failures_in_a_row ((t, r) ∷ checks)))
          then unreachable
          else error)
  phase-run_checks checks t r a h failed l = ground (
    arith,
    phase-checked t r (run_checks checks a) failed,
    threshold-run_checks checks a,
    failures-run_checks checks a h,
    inc_int32_small (failures_in_a_row checks),
    failures_in_a_row-le checks,
  )
