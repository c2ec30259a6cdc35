-- ===== src/System/Coherence.antt =====
-- What the parts of a status say about each other, and that each change of a status respects it.
use a2a_registry.Common.{
  List, Option, some, none, ◌≡◌, ◌↔◌, refl, String, Bool, true, false, if◌then◌else◌,
}
use a2a_registry.Common.Int32.{pos}
use a2a_registry.Api.{
  constants, Time, A2aAgent, A2aAgentStatus, A2aRegistrySpec, pending, ready, unreachable, healthy,
  unhealthy, unknown, zero_status, error, unset_phase, unset_health,
}
use a2a_registry.Platform.{AgentCard, Std, Effect}
use a2a_registry.HealthCheck.{HealthResult}
use a2a_registry.AgentController.Checks.{requires_card_match}
use a2a_registry.AgentController.Steps.{
  mark_conflict, mark_disabled, mark_registered, mark_waiting, mark_approved, mark_unchecked,
  finish, judge, match_card, mark_healthy,
}
use a2a_registry.Handler.Register.{approve}

-- The health is Healthy exactly in phase Ready, where there are no failures and a heartbeat; in
-- phase Unreachable it is Unhealthy, and in phase Pending unknown.
pub record IsCoherent (s : A2aAgentStatus) : Type 0 where
  pub healthy_iff : (s.health ≡ healthy) ↔ (s.phase ≡ ready)
  pub no_failures : s.phase ≡ ready → s.consecutive_failures ≡ pos 0
  pub heartbeat : s.phase ≡ ready → (t : Time) × (s.last_heartbeat ≡ some t)
  pub unreachable_health : s.phase ≡ unreachable → s.health ≡ unhealthy
  pub pending_health : s.phase ≡ pending → s.health ≡ unknown

ready_status-IsCoherent :
    (s : A2aAgentStatus) (t : Time)
    → s.phase ≡ ready
    → s.health ≡ healthy
    → s.consecutive_failures ≡ pos 0
    → s.last_heartbeat ≡ some t
    → IsCoherent s
ready_status-IsCoherent s t p h f b = record {
  healthy_iff = ground constants;
  no_failures = λ _. f;
  heartbeat = λ _. (t, b);
  unreachable_health = ground constants;
  pending_health = ground constants;
}

error_status-IsCoherent :
    (s : A2aAgentStatus) → s.phase ≡ error → s.health ≡ unhealthy → IsCoherent s
error_status-IsCoherent s p h = record {
  healthy_iff = ground constants;
  no_failures = ground constants;
  heartbeat = λ e. absurd (ground (constants, e));
  unreachable_health = ground constants;
  pending_health = ground constants;
}

unreachable_status-IsCoherent :
    (s : A2aAgentStatus) → s.phase ≡ unreachable → s.health ≡ unhealthy → IsCoherent s
unreachable_status-IsCoherent s p h = record {
  healthy_iff = ground constants;
  no_failures = ground constants;
  heartbeat = λ e. absurd (ground (constants, e));
  unreachable_health = ground constants;
  pending_health = ground constants;
}

pending_status-IsCoherent :
    (s : A2aAgentStatus) → s.phase ≡ pending → s.health ≡ unknown → IsCoherent s
pending_status-IsCoherent s p h = record {
  healthy_iff = ground constants;
  no_failures = ground constants;
  heartbeat = λ e. absurd (ground (constants, e));
  unreachable_health = ground constants;
  pending_health = ground constants;
}

unset_status-IsCoherent :
    (s : A2aAgentStatus) → s.phase ≡ unset_phase → s.health ≡ unset_health → IsCoherent s
unset_status-IsCoherent s p h = record {
  healthy_iff = ground constants;
  no_failures = ground constants;
  heartbeat = λ e. absurd (ground (constants, e));
  unreachable_health = ground constants;
  pending_health = ground constants;
}

pub zero_status-IsCoherent : IsCoherent zero_status
zero_status-IsCoherent = unset_status-IsCoherent zero_status refl refl

-- The conditions, the generation and the time of the registration are not part of it.
pub same-IsCoherent :
    (s t : A2aAgentStatus)
    → t.phase ≡ s.phase
    → t.health ≡ s.health
    → t.consecutive_failures ≡ s.consecutive_failures
    → t.last_heartbeat ≡ s.last_heartbeat
    → IsCoherent s
    → IsCoherent t
same-IsCoherent s t p h f b c = record {
  healthy_iff = rw (p, h) c.healthy_iff;
  no_failures = rw (p, f) c.no_failures;
  heartbeat = rw (p, b) c.heartbeat;
  unreachable_health = rw (p, h) c.unreachable_health;
  pending_health = rw (p, h) c.pending_health;
}

pub mark_conflict-IsCoherent :
    (conflict : String) (a : A2aAgent) → IsCoherent (mark_conflict conflict a).status
unfolding mark_conflict
mark_conflict-IsCoherent conflict a = error_status-IsCoherent _ refl refl

pub mark_disabled-IsCoherent : (a : A2aAgent) → IsCoherent (mark_disabled a).status
unfolding mark_disabled
mark_disabled-IsCoherent a = pending_status-IsCoherent _ refl refl

module _ (now : Time) where
  pub mark_waiting-IsCoherent : (a : A2aAgent) → IsCoherent (mark_waiting now a).status
  unfolding mark_waiting
  mark_waiting-IsCoherent a = pending_status-IsCoherent _ refl refl

  pub mark_unchecked-IsCoherent : (a : A2aAgent) → IsCoherent (mark_unchecked now a).status
  unfolding mark_unchecked
  mark_unchecked-IsCoherent a = ready_status-IsCoherent _ now refl refl refl refl

  pub mark_registered-IsCoherent :
      (a : A2aAgent) → IsCoherent a.status → IsCoherent (mark_registered now a).status
  unfolding mark_registered
  mark_registered-IsCoherent a = same-IsCoherent a.status _ refl refl refl refl

  pub mark_approved-IsCoherent :
      (a : A2aAgent) → IsCoherent a.status → IsCoherent (mark_approved now a).status
  unfolding mark_approved
  mark_approved-IsCoherent a = same-IsCoherent a.status _ refl refl refl refl

  pub approve-IsCoherent : (a : A2aAgent) → IsCoherent a.status → IsCoherent (approve now a).status
  unfolding approve
  approve-IsCoherent a = same-IsCoherent a.status _ refl refl refl refl

  pub finish-IsCoherent : (a : A2aAgent) → IsCoherent a.status → IsCoherent (finish now a).status
  unfolding finish
  finish-IsCoherent a = same-IsCoherent a.status _ refl refl refl refl

  module _ (std : Std) where
    either :
        {A : Type 0} (b : Bool) (x y : A2aAgent × A)
        → IsCoherent x.0.status
        → IsCoherent y.0.status
        → IsCoherent (if b then x else y).0.status
    either true x y p q = p
    either false x y p q = q

    match_card-IsCoherent :
        (asked : Bool) (card : Option AgentCard) (a : A2aAgent) (t : List Effect)
        → IsCoherent a.status
        → IsCoherent (match_card std asked card a t).0.status
    match_card-IsCoherent false card a t c = c
    match_card-IsCoherent true none a t c = c
    match_card-IsCoherent true (some card) a t c =
        either _ _ _ c (error_status-IsCoherent _ refl refl)

    pub judge-IsCoherent :
        (cfg : Option A2aRegistrySpec) (r : HealthResult) (a : A2aAgent) (t : List Effect)
        → IsCoherent (judge std now cfg r a t).0.status
    unfolding judge
    judge-IsCoherent cfg r a t =
        either r.healthy _ _
          (match_card-IsCoherent (requires_card_match cfg) r.card (mark_healthy std now r a) _
            (ready_status-IsCoherent _ now refl refl refl refl))
          (either _ _ _ (unreachable_status-IsCoherent _ refl refl)
            (error_status-IsCoherent _ refl refl))
