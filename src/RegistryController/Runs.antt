-- ===== src/RegistryController/Runs.antt =====
-- The runs of the registry's reconciler: what each returns, and which discovery configuration it
-- leaves in the API server.
use a2a_registry.Common.{
  List, [], ◌∷◌, Bool, true, false, Option, none, some, Result, ok, err, ◌≡◌, refl, inl, inr,
  Bool-cases, Result-cases, length, if◌then◌else◌, not, ◌||◌,
}
use a2a_registry.Common.Int32.{ℤ, pos, to_int32, eqb_ℤ}
use a2a_registry.Api.{Time, ObjectKey, A2aAgent, A2aRegistry}
use a2a_registry.Conditions.{a2a_finalizer}
use a2a_registry.Platform.{
  Std, KubeClient, KubeError, ControllerUtil, World, ◌>>=◌, metric, wrote, update_registry,
  agent_count_reset,
}
use a2a_registry.Server.{Server, update_server_config}
use a2a_registry.RegistryController.{
  Outcome, count_healthy, active_status, count_agents, prune, finalize, set_finalizers,
  ensure_finalizer, announce, track, reconcile_live, by_deletion, reconcile_registry,
}
use a2a_registry.RegistryController.Safety.{count_agents-ok}

module _ {C Sel : Type 0} (std : Std) (K : KubeClient C Sel) (U : ControllerUtil) (now : Time) where
  abbrev pub has_finalizer : A2aRegistry → Bool
  has_finalizer g = U.contains_finalizer g.metadata.finalizers a2a_finalizer

  abbrev pub without_finalizer : A2aRegistry → A2aRegistry
  without_finalizer g =
      set_finalizers std K U now g (U.remove_finalizer g.metadata.finalizers a2a_finalizer)

  abbrev pub with_finalizer : A2aRegistry → A2aRegistry
  with_finalizer g =
      set_finalizers std K U now g (U.add_finalizer g.metadata.finalizers a2a_finalizer)

  abbrev pub updated : A2aRegistry → World C → World C
  updated g w = record {
    cluster = (K.update_registry w.cluster g).1;
    trace = wrote (update_registry g) ∷ w.trace;
  }

  -- The cluster once the listed agents are counted and the stale ones are deleted.
  abbrev pub pruned_cluster : List A2aAgent → World C → C
  pruned_cluster items w =
      (prune std K U now items
        (count_agents items (record w { trace = metric agent_count_reset ∷ w.trace })).1).cluster

  -- The status of the registry with the counts of the listed agents.
  abbrev pub counted : A2aRegistry → List A2aAgent → A2aRegistry
  counted g items = active_status now (to_int32 (length items)) (count_healthy items (pos 0)) g

  -- A live registry with its finalizer, and the world then: it had the finalizer, or it is what the
  -- server sent back when it was added.
  pub data Claimed (g : A2aRegistry) (w : World C) : A2aRegistry → World C → Type 0 where
    held : has_finalizer g ≡ true → Claimed g w g w
    claimed :
        {h : A2aRegistry}
        → has_finalizer g ≡ false
        → (K.update_registry w.cluster (with_finalizer g)).0 ≡ ok h
        → Claimed g w h (updated (with_finalizer g) w)

  module _ (s : Server) where
    -- What a run answers for a registry that has its finalizer. The configuration that is pushed is
    -- that of the registry as the server sent it back for its new status.
    pub data Tracked (g : A2aRegistry) (w : World C) : Result KubeError Outcome → Type 0 where
      unlisted : {e : KubeError} → K.list_agents w.cluster [] ≡ err e → Tracked g w (err e)
      not_stored :
          {items : List A2aAgent} {e : KubeError}
          → K.list_agents w.cluster [] ≡ ok items
          → (K.status_update_registry (pruned_cluster items w) (counted g items)).0 ≡ err e
          → Tracked g w (err e)
      pushed :
          {items : List A2aAgent} {h : A2aRegistry}
          → K.list_agents w.cluster [] ≡ ok items
          → (K.status_update_registry (pruned_cluster items w) (counted g items)).0 ≡ ok h
          → Tracked g w (ok (some (pos 30), some (update_server_config h.spec.discovery s)))

    -- What a run answers, by what the read of the registry gave.
    pub data Run (w : World C)
        : Result KubeError A2aRegistry → Result KubeError Outcome → Type 0 where
      gone : {e : KubeError} → e.is_not_found ≡ true → Run w (err e) (ok (none, some s))
      unread : {e : KubeError} → e.is_not_found ≡ false → Run w (err e) (err e)
      left :
          {g : A2aRegistry} {t : Time}
          → g.metadata.deletion_timestamp ≡ some t
          → has_finalizer g ≡ false
          → Run w (ok g) (ok (none, some s))
      released :
          {g h : A2aRegistry} {t : Time}
          → g.metadata.deletion_timestamp ≡ some t
          → has_finalizer g ≡ true
          → (K.update_registry w.cluster (without_finalizer g)).0 ≡ ok h
          → Run w (ok g) (ok (none, some s))
      not_released :
          {g : A2aRegistry} {t : Time} {e : KubeError}
          → g.metadata.deletion_timestamp ≡ some t
          → has_finalizer g ≡ true
          → (K.update_registry w.cluster (without_finalizer g)).0 ≡ err e
          → Run w (ok g) (err e)
      not_claimed :
          {g : A2aRegistry} {e : KubeError}
          → g.metadata.deletion_timestamp ≡ none
          → has_finalizer g ≡ false
          → (K.update_registry w.cluster (with_finalizer g)).0 ≡ err e
          → Run w (ok g) (err e)
      tracked :
          {g h : A2aRegistry} {w' : World C} {x : Result KubeError Outcome}
          → g.metadata.deletion_timestamp ≡ none
          → Claimed g w h w'
          → Tracked h w' x
          → Run w (ok g) x

    finalize-Run :
        (g : A2aRegistry) (t : Time) (w : World C)
        → g.metadata.deletion_timestamp ≡ some t
        → Run w (ok g) (finalize std K U now g (some s) w).0
    unfolding finalize ◌>>=◌
    finalize-Run g t w deleted = elim (Bool-cases (has_finalizer g)) [
      | inr bare ↦ rw (bare, finalize) (left deleted bare)
      | inl own ↦ elim (Result-cases (K.update_registry w.cluster (without_finalizer g)).0) [
        | inl (h, e) ↦ rw (own, e, finalize) (released deleted own e)
        | inr (x, e) ↦ rw (own, e, finalize) (not_released deleted own e)
      ]
    ]

    announce-ok :
        (h : A2aRegistry) (total healthy : ℤ) (w : World C)
        → (announce std K U now h total healthy w).0 ≡ ok tt
    unfolding announce
    announce-ok h total healthy w =
        elim (Bool-cases
          (not (eqb_ℤ h.status.agent_count total) || not (eqb_ℤ h.status.healthy_agents healthy))) [
            | inl differ ↦ rw (differ, announce) refl
            | inr agree ↦ rw (agree, announce) refl
          ]

    track-Tracked :
        (g : A2aRegistry) (items : List A2aAgent) (w : World C)
        → K.list_agents w.cluster [] ≡ ok items
        → Tracked g w (track std K U now g items (some s) w).0
    unfolding track ◌>>=◌
    track-Tracked g items w listed =
        elim (Result-cases
          (K.status_update_registry (pruned_cluster items w) (counted g items)).0) [
            | inl (h, sent) ↦
                rw (count_agents-ok items _, sent, announce-ok h _ _ _) (pushed listed sent)
            | inr (e, sent) ↦ rw (count_agents-ok items _, sent) (not_stored listed sent)
          ]

    reconcile_live-Tracked :
        (g : A2aRegistry) (w : World C) → Tracked g w (reconcile_live std K U now g (some s) w).0
    reconcile_live-Tracked g w = elim (Result-cases (K.list_agents w.cluster [])) [
      | inl (items, e) ↦ rw (e, reconcile_live) (track-Tracked g items w e)
      | inr (x, e) ↦ rw (e, reconcile_live) (unlisted e)
    ]

    live-Run :
        (g : A2aRegistry) (w : World C)
        → g.metadata.deletion_timestamp ≡ none
        → Run w
            (ok g)
            ((ensure_finalizer std K U now g >>= λ h. reconcile_live std K U now h (some s)) w).0
    unfolding ensure_finalizer ◌>>=◌
    live-Run g w live = elim (Bool-cases (has_finalizer g)) [
      | inl own ↦ rw own (tracked live (held own) (reconcile_live-Tracked g w))
      | inr bare ↦ elim (Result-cases (K.update_registry w.cluster (with_finalizer g)).0) [
        | inl (h, e) ↦
            rw (bare, e)
              (tracked live (claimed bare e)
                (reconcile_live-Tracked h (updated (with_finalizer g) w)))
        | inr (x, e) ↦ rw (bare, e) (not_claimed live bare e)
      ]
    ]

    by_deletion-Run :
        (o : Option Time) (g : A2aRegistry) (w : World C)
        → g.metadata.deletion_timestamp ≡ o
        → Run w (ok g) (by_deletion std K U now o g (some s) w).0
    by_deletion-Run (some t) g w e = finalize-Run g t w e
    by_deletion-Run none g w e = live-Run g w e

    missing-Run :
        (x : KubeError) (w : World C) (b : Bool)
        → x.is_not_found ≡ b
        → Run w
            (err x)
            (if◌then◌else◌ {A = Result KubeError Outcome × World C} b
              (ok (none, some s), w)
              (err x, w)).0
    missing-Run x w true e = gone e
    missing-Run x w false e = unread e

    read-Run :
        (key : ObjectKey) (w : World C) (x : Result KubeError A2aRegistry)
        → K.get_registry w.cluster key ≡ x
        → Run w x (reconcile_registry std K U now key (some s) w).0
    unfolding reconcile_registry
    read-Run key w (ok g) e =
        rw (e, reconcile_registry) (by_deletion-Run g.metadata.deletion_timestamp g w refl)
    read-Run key w (err x) e = rw (e, reconcile_registry) (missing-Run x w x.is_not_found refl)

    -- Every run of the registry's reconciler with an API server is one of these. The registry is
    -- gone, or is being deleted, and the server is as it was, after the finalizer was taken away if
    -- it was there; or a read, the update for the finalizer, the list of the agents or the update of
    -- the status fails, and the run returns that error; or the status of the registry, with the
    -- counts of the agents that were listed, was stored after the deletes of the stale ones. Then the
    -- run asks for another one in 30 seconds, and the server has the discovery configuration of that
    -- registry as it was sent back.
    pub reconcile_registry-Run :
        (key : ObjectKey) (w : World C)
        → Run w (K.get_registry w.cluster key) (reconcile_registry std K U now key (some s) w).0
    reconcile_registry-Run key w = read-Run key w (K.get_registry w.cluster key) refl
