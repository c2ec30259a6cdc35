-- ===== src/AgentController/Safety/Writes.antt =====
-- What one run of the reconciler writes, once the finalizer is there.
use a2a_registry.Common.{
  String, List, ◌∷◌, true, false, Option, none, some, ◌≡◌, refl, sym, ◌∙◌, ap, inl, inr, eq_iff,
  Bool-cases,
}
use a2a_registry.Api.{error_ne_ready, Time, A2aAgent, A2aAgentStatus, pending, same_phase}
use a2a_registry.Platform.{
  Std, KubeClient, ControllerUtil, World, Effect, wrote, metric, registrations_total_inc, ◌>>=◌,
  status_update_agent,
}
use a2a_registry.Resolver.{Network}
use a2a_registry.HealthCheck.{check_with_auth}
use a2a_registry.AgentController.Checks.{
  check_card_match, check_url_conflict, get_registry_config, build_auth_config, is_approved,
  requires_approval, skips_health_check,
}
use a2a_registry.AgentController.Steps.{
  set_status, judge, finish, mark_registered, mark_conflict, mark_disabled, mark_waiting,
  mark_approved, mark_unchecked,
}
use a2a_registry.AgentController.Reconcile.{
  on_admitted, on_enabled, on_registered, on_conflict, on_disabled, on_waiting, register_at,
  reconcile_live,
}
use a2a_registry.AgentController.Safety.{
  Extends, same, more, approved_in, finish-approved, approved_in-merge_true,
}
use a2a_registry.AgentController.Safety.Judged.{judge-Judged, judge-Extends, fetch-Extends}
use a2a_registry.AgentController.Safety.Allowed.{
  AllowedEffect, KeepsApproval, card_ok, conflict-set_status, health_of, if-exec, written-Extends,
}

module _ {C Sel : Type 0} (std : Std) (K : KubeClient C Sel) (net : Network) where
  -- From here on `s` is a status of the found agent that the reconciler has reached.
  module _ (U : ControllerUtil) (now : Time) (found : A2aAgent) where
    checked_ok :
        (s : A2aAgentStatus) (w : World C)
        → KeepsApproval found (set_status found s)
        → check_url_conflict std K w.cluster found ≡ ""
        → found.spec.enabled ≡ true
        → (requires_approval (get_registry_config K w.cluster) ≡ true → is_approved found ≡ true)
        → (t : List Effect)
        → AllowedEffect std K net w.cluster found (
            wrote (
              status_update_agent (
                finish now
                  (judge std now
                    (get_registry_config K w.cluster)
                    (health_of std K net w.cluster (set_status found s))
                    (set_status found s)
                    t).0)))
    unfolding finish check_with_auth build_auth_config check_card_match
    checked_ok s w keeps unique enabled approved t =
        let cfg = get_registry_config K w.cluster in
        let a = set_status found s in
        let r = health_of std K net w.cluster a in
        let b = (judge std now cfg r a t).0 in
        let j = judge-Judged std now cfg r a t in
        (
          j.metadata,
          j.spec,
          λ p. finish-approved now b ∙ ap approved_in j.conditions ∙ keeps p,
          λ h. record {
            no_conflict = unique;
            enabled = enabled;
            approved = approved;
            checked = inr (j.passed h, λ m. card_ok std K net now cfg r a t h m r.card refl);
          },
        )

    on_admitted-allowed :
        (s : A2aAgentStatus) (w : World C) (old : List Effect)
        → KeepsApproval found (set_status found s)
        → check_url_conflict std K w.cluster found ≡ ""
        → found.spec.enabled ≡ true
        → (requires_approval (get_registry_config K w.cluster) ≡ true → is_approved found ≡ true)
        → Extends (AllowedEffect std K net w.cluster found) old w.trace
        → Extends
            (AllowedEffect std K net w.cluster found)
            old
            (on_admitted std K U net now
              (get_registry_config K w.cluster)
              (set_status found s)
              w).1.trace
    unfolding on_admitted mark_unchecked finish
    on_admitted-allowed s w old keeps unique enabled approved h =
        let a = set_status found s in
        elim (Bool-cases (skips_health_check (get_registry_config K w.cluster))) [
          | inl skip ↦ rw skip (
              written-Extends std K net _ _ _ w old
                (
                  refl,
                  refl,
                  λ p. finish-approved now (mark_unchecked now a) ∙ keeps p,
                  λ _. record {
                    no_conflict = unique;
                    enabled = enabled;
                    approved = approved;
                    checked = inl skip;
                  },
                )
                h)
          | inr check ↦ rw check (
              written-Extends std K net _ _ _ _ old (checked_ok s w keeps unique enabled approved _)
                (judge-Extends std (λ _. tt) (λ _. tt) now (get_registry_config K w.cluster)
                  (health_of std K net w.cluster a) a _
                  (fetch-Extends std (λ _. tt) (λ _. tt) net a.spec.url
                    (build_auth_config K w.cluster a) w.trace h)))
        ]

    on_waiting-allowed :
        (s : A2aAgentStatus) (w : World C) (old : List Effect)
        → approved_in found.status.conditions ≡ false
        → Extends (AllowedEffect std K net w.cluster found) old w.trace
        → Extends
            (AllowedEffect std K net w.cluster found)
            old
            (on_waiting std K U net now (set_status found s) w).1.trace
    unfolding on_waiting mark_waiting
    on_waiting-allowed s w old bare h =
        written-Extends std K net _ _ _ w old (refl, refl, (λ p. absurd cc), λ p. cc) h

    on_disabled-allowed :
        (s : A2aAgentStatus) (w : World C) (old : List Effect)
        → KeepsApproval found (set_status found s)
        → Extends (AllowedEffect std K net w.cluster found) old w.trace
        → Extends
            (AllowedEffect std K net w.cluster found)
            old
            (on_disabled std K U net now (set_status found s) w).1.trace
    unfolding on_disabled mark_disabled
    on_disabled-allowed s w old keeps h = elim (Bool-cases (same_phase s.phase pending)) [
      | inl already ↦ rw already h
      | inr other ↦ rw other (written-Extends std K net _ _ _ w old (refl, refl, keeps, λ p. cc) h)
    ]

    on_conflict-allowed :
        (conflict : String) (s : A2aAgentStatus) (w : World C) (old : List Effect)
        → KeepsApproval found (set_status found s)
        → Extends (AllowedEffect std K net w.cluster found) old w.trace
        → Extends
            (AllowedEffect std K net w.cluster found)
            old
            (on_conflict std K U net now conflict (set_status found s) w).1.trace
    unfolding on_conflict mark_conflict
    on_conflict-allowed conflict s w old keeps h =
        written-Extends std K net _ _ _ w old (refl, refl, keeps, λ p. absurd (error_ne_ready p)) h

    on_enabled-allowed :
        (s : A2aAgentStatus) (w : World C) (old : List Effect)
        → approved_in s.conditions ≡ approved_in found.status.conditions
        → check_url_conflict std K w.cluster found ≡ ""
        → found.spec.enabled ≡ true
        → Extends (AllowedEffect std K net w.cluster found) old w.trace
        → Extends
            (AllowedEffect std K net w.cluster found)
            old
            (on_enabled std K U net now (set_status found s) w).1.trace
    unfolding on_enabled mark_approved is_approved
    on_enabled-allowed s w old kept unique enabled h =
        elim (Bool-cases (requires_approval (get_registry_config K w.cluster))) [
          | inr free ↦ rw free (
              on_admitted-allowed s w old (λ p. kept ∙ p) unique enabled (λ asked. cc (free, asked))
                h)
          | inl asked ↦ elim (Bool-cases (approved_in s.conditions)) [
            | inl approved ↦
                rw (asked, approved)
                  (on_admitted-allowed _ w old (λ _. approved_in-merge_true _ _ refl refl) unique
                    enabled (λ _. sym kept ∙ approved) h)
            | inr waiting ↦ rw (asked, waiting) (on_waiting-allowed s w old (sym kept ∙ waiting) h)
          ]
        ]

    -- What follows the registration.
    registered-allowed :
        (s : A2aAgentStatus) (w : World C) (old : List Effect)
        → approved_in s.conditions ≡ approved_in found.status.conditions
        → Extends (AllowedEffect std K net w.cluster found) old w.trace
        → Extends
            (AllowedEffect std K net w.cluster found)
            old
            (on_registered std K U net now (set_status found s) w).1.trace
    unfolding on_registered
    registered-allowed s w old kept h =
        if-exec std K net _ _ _ w
          (λ unique.
            if-exec std K net found.spec.enabled _ _ w
              (on_enabled-allowed s w old kept
                (sym (conflict-set_status std K net w.cluster found s) ∙ (eq_iff _ _).0 unique))
              (λ _. on_disabled-allowed s w old (λ p. kept ∙ p)))
          (λ _. on_conflict-allowed _ s w old (λ p. kept ∙ p)) h

    register_at-allowed :
        (o : Option Time) (w : World C)
        → Extends
            (AllowedEffect std K net w.cluster found)
            w.trace
            ((register_at std K U net now o found >>= on_registered std K U net now) w).1.trace
    unfolding register_at mark_registered
    register_at-allowed none w =
        registered-allowed (mark_registered now found).status
          (record w { trace = metric registrations_total_inc ∷ w.trace }) w.trace refl
          (more tt same)
    register_at-allowed (some t) w = registered-allowed found.status w w.trace refl same

    -- For any agent, cluster and network: the part of the reconciler that follows the handling of
    -- the finalizer writes nothing but statuses of the agent that it was given, never loses an
    -- approval that the agent has, and writes a status with phase Ready only if that agent, as it was given and in the cluster that is read, has no URL
    -- conflict, is enabled, is approved if the policy asks for that, and, unless the policy skips
    -- health checks, passed the check with a card that matches if the policy asks for that.
    pub reconcile_live-AllowedEffect :
        (w : World C)
        → Extends
            (AllowedEffect std K net w.cluster found)
            w.trace
            (reconcile_live std K U net now found w).1.trace
    unfolding reconcile_live
    reconcile_live-AllowedEffect w = register_at-allowed found.status.registered_at w
