-- ===== src/RegistryController/Laws.antt =====
-- The event that is to report new numbers of agents: the status that comes back from the update has
-- the numbers with which it is compared.
use a2a_registry.Common.{
  ℕ, ◌+◌, List, [], ◌∷◌, Bool, true, false, Option, none, some, ok, ◌==◌, ◌≡◌, refl, ◌∙◌, ap, arith,
  inl, inr, Bool-cases, Result-cases, length, if◌then◌else◌,
}
use a2a_registry.Common.Int32.{ℤ, pos, to_int32, eqb_ℤ}
use a2a_registry.Conditions.{a2a_finalizer}
use a2a_registry.Api.{Time, ObjectKey, A2aAgent, A2aRegistry}
use a2a_registry.Server.{Server}
use a2a_registry.Platform.{
  Std, KubeClient, ControllerUtil, LawfulClient, World, Exec, Effect, MetricCall, wrote, metric,
  recorded, pure, agent_count_reset, emit, update_reg, status_update_reg, ◌>>=◌,
}
use a2a_registry.RegistryController.{
  active_status, announce, count_agents, count_healthy, is_stale, prune_agent, prune, finalize,
  push_config, ensure_finalizer, track, reconcile_live, by_deletion, reconcile_registry,
}

eqb_ℤ_refl : (n : ℤ) → eqb_ℤ n n ≡ true
eqb_ℤ_refl n = ground arith

module _ {C Sel : Type 0} (std : Std) (K : KubeClient C Sel) (U : ControllerUtil) where
  announce-active_status :
      (now : Time) (g h : A2aRegistry) (total healthy : ℤ) (c c' : C) (w : World C)
      → LawfulClient K
      → K.status_update_registry c (active_status now total healthy g) ≡ (ok h, c')
      → announce std K U now h total healthy w ≡ (ok tt, w)
  unfolding announce active_status
  announce-active_status now g h total healthy c c' w lawful sent = rw (
    ap (λ s. s.agent_count) (lawful.status_update_registry_status c c' _ h sent),
    ap (λ s. s.healthy_agents) (lawful.status_update_registry_status c c' _ h sent),
    eqb_ℤ_refl total,
    eqb_ℤ_refl healthy,
  )

-- How many of the events report new numbers of agents.
abbrev pub announcements : List Effect → ℕ
announcements [] = 0
announcements (recorded e ∷ t) =
    let rest = announcements t in if e.reason == "RegistryActive" then rest + 1 else rest
announcements (wrote x ∷ t) = announcements t
announcements (metric x ∷ t) = announcements t

module _ {C : Type 0} where
  -- The program records no such event.
  record Silent {A : Type 0} (m : Exec C A) : Type 0 where
    run : (w : World C) → announcements (m w).1.trace ≡ announcements w.trace

  bind-Silent :
      {A B : Type 0} (m : Exec C A) (f : A → Exec C B)
      → Silent m
      → ((a : A) (w : World C) → (m w).0 ≡ ok a → Silent (f a))
      → Silent (m >>= f)
  unfolding ◌>>=◌
  bind-Silent m f k l = record {
    run = λ w. elim (Result-cases (m w).0) [
      | inl (a, e) ↦ rw e ((l a w e).run (m w).1 ∙ k.run w)
      | inr (x, e) ↦ rw e (k.run w)
    ];
  }

  if-Silent :
      {A : Type 0} (b : Bool) (m n : Exec C A) → Silent m → Silent n → Silent (if b then m else n)
  if-Silent true m n k l = k
  if-Silent false m n k l = l

  pure-Silent : {A : Type 0} (a : A) → Silent (pure a)
  pure-Silent a = record { run = λ w. refl }

  metric-Silent : (x : MetricCall) → Silent (emit (metric x))
  metric-Silent x = record { run = λ w. refl }

  count_agents-Silent : (items : List A2aAgent) → Silent (count_agents items)
  unfolding count_agents ◌>>=◌
  count_agents-Silent [] = pure-Silent tt
  count_agents-Silent (a ∷ items) = record { run = λ w. (count_agents-Silent items).run _ }

module _ {C Sel : Type 0} (std : Std) (K : KubeClient C Sel) (U : ControllerUtil) (now : Time) where
  update_reg-Silent : (g : A2aRegistry) → Silent (update_reg K g)
  update_reg-Silent g = record { run = λ w. refl }

  status_update_reg-Silent : (g : A2aRegistry) → Silent (status_update_reg K g)
  status_update_reg-Silent g = record { run = λ w. refl }

  prune_agent-silent :
      (a : A2aAgent) (w : World C)
      → announcements (prune_agent std K U now a w).trace ≡ announcements w.trace
  unfolding prune_agent
  prune_agent-silent a w = elim (Bool-cases (is_stale now a)) [
    | inl stale ↦ rw (stale, prune_agent) refl
    | inr fresh ↦ rw (fresh, prune_agent) refl
  ]

  prune-silent :
      (items : List A2aAgent) (w : World C)
      → announcements (prune std K U now items w).trace ≡ announcements w.trace
  unfolding prune
  prune-silent [] w = refl
  prune-silent (a ∷ items) w = prune-silent items _ ∙ prune_agent-silent a w

  module _ (lawful : LawfulClient K) where
    announce-Silent :
        (g h : A2aRegistry) (total healthy : ℤ) (c : C)
        → (K.status_update_registry c (active_status now total healthy g)).0 ≡ ok h
        → Silent (announce std K U now h total healthy)
    announce-Silent g h total healthy c sent =
        let after = (K.status_update_registry c (active_status now total healthy g)).1 in
        record {
          run = λ w.
              ap (λ x. announcements x.1.trace)
                (announce-active_status std K U now g h total healthy c after w lawful
                  λ i. (sent i, after));
        }

    track-Silent :
        (g : A2aRegistry) (items : List A2aAgent) (s : Option Server)
        → Silent (track std K U now g items s)
    unfolding track
    track-Silent g items s =
        let total = to_int32 (length items) in
        let healthy = count_healthy items (pos 0) in
        bind-Silent (emit (metric agent_count_reset)) _ (metric-Silent agent_count_reset) λ a w e.
          bind-Silent (count_agents items) _ (count_agents-Silent items) λ a w e.
            bind-Silent (λ w. (ok tt, prune std K U now items w)) _
              (record { run = prune-silent items })
              λ a w e.
                bind-Silent (status_update_reg K (active_status now total healthy g)) _
                  (status_update_reg-Silent (active_status now total healthy g))
                  λ g' w sent.
                    bind-Silent (announce std K U now g' total healthy) _
                      (announce-Silent g g' total healthy w.cluster sent)
                      λ a w e. pure-Silent (some (pos 30), push_config g' s)

    reconcile_live-Silent :
        (g : A2aRegistry) (s : Option Server) → Silent (reconcile_live std K U now g s)
    reconcile_live-Silent g s = record {
      run = λ w. elim (Result-cases (K.list_agents w.cluster [])) [
        | inl (items, e) ↦ rw (e, reconcile_live) ((track-Silent g items s).run w)
        | inr (x, e) ↦ rw (e, reconcile_live) refl
      ];
    }

    by_deletion-Silent :
        (o : Option Time) (g : A2aRegistry) (s : Option Server)
        → Silent (by_deletion std K U now o g s)
    unfolding finalize ensure_finalizer
    by_deletion-Silent (some t) g s =
        if-Silent (U.contains_finalizer g.metadata.finalizers a2a_finalizer) _ _
          (bind-Silent (update_reg K _) _ (update_reg-Silent _) λ a w e. pure-Silent (none, s))
          (pure-Silent (none, s))
    by_deletion-Silent none g s =
        bind-Silent (ensure_finalizer std K U now g) _
          (if-Silent (U.contains_finalizer g.metadata.finalizers a2a_finalizer) _ _ (pure-Silent g)
            (update_reg-Silent _))
          λ g' w e. reconcile_live-Silent g' s

    -- If the client follows its documentation, so that the server sends a status back as it was sent,
    -- then no run of the registry's reconciler records an event with the reason "RegistryActive",
    -- which is to report new numbers of agents, whatever the numbers were.
    pub announcements-reconcile_registry :
        (key : ObjectKey) (s : Option Server) (w : World C)
        → announcements (reconcile_registry std K U now key s w).1.trace ≡ announcements w.trace
    unfolding reconcile_registry
    announcements-reconcile_registry key s w = elim (Result-cases (K.get_registry w.cluster key)) [
      | inl (g, e) ↦
          rw (e, reconcile_registry) ((by_deletion-Silent g.metadata.deletion_timestamp g s).run w)
      | inr (x, e) ↦ elim (Bool-cases x.is_not_found) [
        | inl missing ↦ rw (e, missing, reconcile_registry) refl
        | inr other ↦ rw (e, other, reconcile_registry) refl
      ]
    ]
