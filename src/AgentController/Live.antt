-- ===== src/AgentController/Live.antt =====
-- An agent that may be Ready becomes Ready.
use a2a_registry.Common.{
  List, ◌∷◌, ◌++◌, Result, Bool, true, false, false≢true, if◌then◌else◌, Option, none, some, ◌≡◌,
  refl, ◌∙◌, inl, inr, Bool-cases,
}
use a2a_registry.Common.Int32.{pos}
use a2a_registry.Api.{Time, A2aAgent, A2aAgentStatus, A2aRegistrySpec, ready, healthy}
use a2a_registry.Platform.{
  AgentCard, Std, KubeClient, KubeError, ControllerUtil, World, Exec, Effect, metric,
  registrations_total_inc, ◌>>=◌, ◌>>◌, pure, status_update,
}
use a2a_registry.Resolver.{Network}
use a2a_registry.HealthCheck.{HealthResult, check_with_auth}
use a2a_registry.AgentController.Checks.{
  check_card_match, get_registry_config, build_auth_config, is_approved, interval_seconds,
  requires_approval, requires_card_match, skips_health_check,
}
use a2a_registry.AgentController.Steps.{
  set_status, judge, finish, match_card, mark_healthy, mark_registered, mark_approved,
  mark_unchecked,
}
use a2a_registry.AgentController.Reconcile.{
  Requeue, on_admitted, on_enabled, on_registered, register_at, reconcile_live,
}
use a2a_registry.AgentController.Safety.{approved_in}
use a2a_registry.AgentController.Safety.Judged.{CardOk, Passed}
use a2a_registry.AgentController.Safety.Allowed.{ReadyOk, conflict-set_status}

-- The agent with a status that says that it is ready, as of now.
pub record IsReadyNow (now : Time) (found b : A2aAgent) : Type 0 where
  pub metadata : b.metadata ≡ found.metadata
  pub spec : b.spec ≡ found.spec
  pub phase : b.status.phase ≡ ready
  pub health : b.status.health ≡ healthy
  pub last_heartbeat : b.status.last_heartbeat ≡ some now
  pub consecutive_failures : b.status.consecutive_failures ≡ pos 0
  pub observed_generation : b.status.observed_generation ≡ found.metadata.generation

module _ (std : Std) where
  match_card-CardOk :
      (asked : Bool) (card : Option AgentCard) (a : A2aAgent) (t : List Effect)
      → (asked ≡ true → CardOk std a card)
      → (match_card std asked card a t).0 ≡ a
  match_card-CardOk false card a t h = refl
  match_card-CardOk true none a t h = refl
  match_card-CardOk true (some card) a t h = rw (h refl)

  CardOk-set_status :
      (a : A2aAgent) (s : A2aAgentStatus) (card : Option AgentCard)
      → CardOk std a card
      → CardOk std (set_status a s) card
  unfolding check_card_match
  CardOk-set_status a s none h = h
  CardOk-set_status a s (some card) h = h

  pub Passed-set_status :
      (cfg : Option A2aRegistrySpec) (a : A2aAgent) (s : A2aAgentStatus) (r : HealthResult)
      → Passed std cfg a r
      → Passed std cfg (set_status a s) r
  Passed-set_status cfg a s r p = (p.0, λ m. CardOk-set_status a s r.card (p.1 m))

  judge-Passed :
      (now : Time) (cfg : Option A2aRegistrySpec) (r : HealthResult) (a : A2aAgent)
      (t : List Effect)
      → Passed std cfg a r
      → (judge std now cfg r a t).0 ≡ mark_healthy std now r a
  unfolding judge check_card_match
  judge-Passed now cfg r a t p = rw p.0 (match_card-CardOk (requires_card_match cfg) r.card _ _ p.1)

module _ {C Sel : Type 0} (std : Std) (K : KubeClient C Sel) (net : Network) where
  module _ (U : ControllerUtil) (now : Time) (found : A2aAgent) where
    -- After some metrics and events in `w`, the run writes a ready status of the agent; it returns
    -- the time of the next run if the server takes the write, and else its error.
    abbrev pub EndsReady : World C → Result KubeError Requeue × World C → Type 0
    EndsReady w x =
        (b : A2aAgent) × (t : List Effect) × IsReadyNow now found b
        × (x
            ≡ (status_update K b
                  >> pure (some (interval_seconds (get_registry_config K w.cluster) found)))
                (record { cluster = w.cluster; trace = t }))

    marked-IsReadyNow :
        (s : A2aAgentStatus) (r : HealthResult) (b : A2aAgent)
        → b ≡ mark_healthy std now r (set_status found s)
        → IsReadyNow now found (finish now b)
    unfolding finish
    marked-IsReadyNow s r b e = rw e (record {
      metadata = refl;
      spec = refl;
      phase = refl;
      health = refl;
      last_heartbeat = refl;
      consecutive_failures = refl;
      observed_generation = refl;
    })

    on_admitted-Ready :
        (s : A2aAgentStatus) (w : World C)
        → ReadyOk std K net w.cluster found
        → EndsReady w
            (on_admitted std K U net now (get_registry_config K w.cluster) (set_status found s) w)
    unfolding on_admitted mark_unchecked finish interval_seconds check_with_auth build_auth_config
    on_admitted-Ready s w can =
        let cfg = get_registry_config K w.cluster in
        let a = set_status found s in
        elim (Bool-cases (skips_health_check cfg)) [
          | inl skip ↦ rw skip (
            finish now (mark_unchecked now a),
            w.trace,
            record {
              metadata = refl;
              spec = refl;
              phase = refl;
              health = refl;
              last_heartbeat = refl;
              consecutive_failures = refl;
              observed_generation = refl;
            },
            refl,
          )
          | inr check ↦ elim can.checked [
            | inl skip ↦ absurd cc
            | inr passed ↦
                let (r, effects) = check_with_auth std net a (build_auth_config K w.cluster a) in
                let judged = judge std now cfg r a (effects ++ w.trace) in
                rw check (
                  finish now judged.0,
                  judged.1,
                  marked-IsReadyNow s r judged.0
                      (judge-Passed std now cfg r a _ (Passed-set_status std cfg found s r passed)),
                  refl,
                )
          ]
        ]

    when_true :
        (b : Bool) (m n : Exec C Requeue) (w : World C)
        → b ≡ true
        → EndsReady w (m w)
        → EndsReady w ((if b then m else n) w)
    when_true true m n w e h = h
    when_true false m n w e h = absurd (false≢true e)

    on_enabled-Ready :
        (s : A2aAgentStatus) (w : World C)
        → approved_in s.conditions ≡ approved_in found.status.conditions
        → ReadyOk std K net w.cluster found
        → EndsReady w (on_enabled std K U net now (set_status found s) w)
    unfolding on_enabled mark_approved is_approved
    on_enabled-Ready s w kept can =
        elim (Bool-cases (requires_approval (get_registry_config K w.cluster))) [
          | inr free ↦ rw free (on_admitted-Ready s w can)
          | inl asked ↦ rw (asked, kept ∙ can.approved asked) (on_admitted-Ready _ w can)
        ]

    on_registered-Ready :
        (s : A2aAgentStatus) (w : World C)
        → approved_in s.conditions ≡ approved_in found.status.conditions
        → ReadyOk std K net w.cluster found
        → EndsReady w (on_registered std K U net now (set_status found s) w)
    unfolding on_registered
    on_registered-Ready s w kept can =
        rw (conflict-set_status std K net w.cluster found s, can.no_conflict)
          (when_true _ _ _ w can.enabled (on_enabled-Ready s w kept can))

    register_at-Ready :
        (o : Option Time) (w : World C)
        → ReadyOk std K net w.cluster found
        → EndsReady w ((register_at std K U net now o found >>= on_registered std K U net now) w)
    unfolding register_at mark_registered
    register_at-Ready none w can =
        on_registered-Ready (mark_registered now found).status
          (record w { trace = metric registrations_total_inc ∷ w.trace }) refl can
    register_at-Ready (some t) w can = on_registered-Ready found.status w refl can

    -- Whatever its status was: if the agent, as it was given and in the cluster that is read, has no
    -- URL conflict, is enabled, is approved if the policy asks for that, and, unless the policy skips
    -- health checks, passes the check with a card that matches if the policy asks for that, then the
    -- reconciler writes a status of it with phase Ready, healthy, no failures and the present time
    -- as the heartbeat; and it asks to be called again, or returns the error of that write.
    pub reconcile_live-Ready :
        (w : World C)
        → ReadyOk std K net w.cluster found
        → EndsReady w (reconcile_live std K U net now found w)
    unfolding reconcile_live
    reconcile_live-Ready w can = register_at-Ready found.status.registered_at w can
