-- ===== src/AgentController/Runs.antt =====
-- The runs of the whole reconciler, from the read of the agent to the last write.
use a2a_registry.Common.{
  ◌∷◌, Bool, true, false, Option, none, some, Result, ok, err, ◌≡◌, refl, inl, inr, Bool-cases,
  Result-cases, if◌then◌else◌,
}
use a2a_registry.Api.{Time, ObjectKey, A2aAgent}
use a2a_registry.Conditions.{a2a_finalizer}
use a2a_registry.Platform.{
  Std, KubeClient, KubeError, ControllerUtil, World, wrote, metric, update_agent,
  deregistrations_total_inc, ◌>>=◌,
}
use a2a_registry.Resolver.{Network}
use a2a_registry.AgentController.Reconcile.{
  Requeue, set_finalizers, removed_event, finalize, ensure_finalizer, by_deletion, reconcile_live,
  reconcile_found, reconcile,
}
use a2a_registry.AgentController.Safety.{Extends}
use a2a_registry.AgentController.Safety.Allowed.{AllowedEffect}
use a2a_registry.AgentController.Safety.Writes.{reconcile_live-AllowedEffect}

module _ {C Sel : Type 0} (std : Std) (K : KubeClient C Sel) (U : ControllerUtil) (net : Network)
    (now : Time) where
  abbrev pub has_finalizer : A2aAgent → Bool
  has_finalizer a = U.contains_finalizer a.metadata.finalizers a2a_finalizer

  abbrev pub without_finalizer : A2aAgent → A2aAgent
  without_finalizer a = set_finalizers a (U.remove_finalizer a.metadata.finalizers a2a_finalizer)

  abbrev pub with_finalizer : A2aAgent → A2aAgent
  with_finalizer a = set_finalizers a (U.add_finalizer a.metadata.finalizers a2a_finalizer)

  abbrev pub updated : A2aAgent → World C → World C
  updated a w = record {
    cluster = (K.update_agent w.cluster a).1;
    trace = wrote (update_agent a) ∷ w.trace;
  }

  -- A run of the reconciler in a world where the read of the agent gave this result: what it
  -- returns, and the world that it leaves.
  pub data Run (w : World C)
      : Result KubeError A2aAgent → Result KubeError Requeue × World C → Type 0 where
    -- the agent is gone, or cannot be read
    ignored : {e : KubeError} → e.is_not_found ≡ true → Run w (err e) (ok none, w)
    unread : {e : KubeError} → e.is_not_found ≡ false → Run w (err e) (err e, w)
    -- the agent is being deleted: the finalizer goes, and only then the deletion is counted
    left :
        {a : A2aAgent} {t : Time}
        → a.metadata.deletion_timestamp ≡ some t
        → has_finalizer a ≡ false
        → Run w (ok a) (ok none, w)
    not_released :
        {a : A2aAgent} {t : Time} {e : KubeError}
        → a.metadata.deletion_timestamp ≡ some t
        → has_finalizer a ≡ true
        → (K.update_agent w.cluster (without_finalizer a)).0 ≡ err e
        → Run w (ok a) (err e, updated (without_finalizer a) w)
    released :
        {a b : A2aAgent} {t : Time}
        → a.metadata.deletion_timestamp ≡ some t
        → has_finalizer a ≡ true
        → (K.update_agent w.cluster (without_finalizer a)).0 ≡ ok b
        → Run w (ok a) (
          ok none,
          record (updated (without_finalizer a) w) {
            trace =
                removed_event std K U b
                ∷ metric deregistrations_total_inc
                ∷ wrote (update_agent (without_finalizer a))
                ∷ w.trace;
          },
        )
    -- the agent is live: it has its finalizer before anything else is done
    not_claimed :
        {a : A2aAgent} {e : KubeError}
        → a.metadata.deletion_timestamp ≡ none
        → has_finalizer a ≡ false
        → (K.update_agent w.cluster (with_finalizer a)).0 ≡ err e
        → Run w (ok a) (err e, updated (with_finalizer a) w)
    claimed :
        {a b : A2aAgent} {x : Result KubeError Requeue × World C}
        → a.metadata.deletion_timestamp ≡ none
        → has_finalizer a ≡ false
        → (K.update_agent w.cluster (with_finalizer a)).0 ≡ ok b
        → Extends
            (AllowedEffect std K net (updated (with_finalizer a) w).cluster b)
            (wrote (update_agent (with_finalizer a)) ∷ w.trace)
            x.1.trace
        → Run w (ok a) x
    went_on :
        {a : A2aAgent} {x : Result KubeError Requeue × World C}
        → a.metadata.deletion_timestamp ≡ none
        → has_finalizer a ≡ true
        → Extends (AllowedEffect std K net w.cluster a) w.trace x.1.trace
        → Run w (ok a) x

  finalize-Run :
      (a : A2aAgent) (t : Time) (w : World C)
      → a.metadata.deletion_timestamp ≡ some t
      → Run w (ok a) (finalize std K U a w)
  unfolding finalize ◌>>=◌
  finalize-Run a t w deleted = elim (Bool-cases (has_finalizer a)) [
    | inr bare ↦ rw (bare, finalize) (left deleted bare)
    | inl held ↦ elim (Result-cases (K.update_agent w.cluster (without_finalizer a)).0) [
      | inl (b, e) ↦ rw (held, e, finalize) (released deleted held e)
      | inr (x, e) ↦ rw (held, e, finalize) (not_released deleted held e)
    ]
  ]

  live-Run :
      (a : A2aAgent) (w : World C)
      → a.metadata.deletion_timestamp ≡ none
      → Run w (ok a) ((ensure_finalizer std K U a >>= reconcile_live std K U net now) w)
  unfolding ensure_finalizer ◌>>=◌
  live-Run a w live = elim (Bool-cases (has_finalizer a)) [
    | inl held ↦ rw held (went_on live held (reconcile_live-AllowedEffect std K net U now a w))
    | inr bare ↦ elim (Result-cases (K.update_agent w.cluster (with_finalizer a)).0) [
      | inl (b, e) ↦
          rw (bare, e)
            (claimed live bare e
              (reconcile_live-AllowedEffect std K net U now b (updated (with_finalizer a) w)))
      | inr (x, e) ↦ rw (bare, e) (not_claimed live bare e)
    ]
  ]

  by_deletion-Run :
      (a : A2aAgent) (o : Option Time) (w : World C)
      → a.metadata.deletion_timestamp ≡ o
      → Run w (ok a) (by_deletion std K U net now o a w)
  by_deletion-Run a none w live = live-Run a w live
  by_deletion-Run a (some t) w deleted = finalize-Run a t w deleted

  unread-Run :
      (x : KubeError) (w : World C) (b : Bool)
      → x.is_not_found ≡ b
      → Run w (err x) (if b then (ok none, w) else (err x, w))
  unread-Run x w true gone = ignored gone
  unread-Run x w false there = unread there

  read-Run :
      (read : Result KubeError A2aAgent) (key : ObjectKey) (w : World C)
      → K.get_agent w.cluster key ≡ read
      → Run w read (reconcile std K U net now key w)
  unfolding reconcile reconcile_found
  read-Run (ok a) key w e = rw (e, reconcile) (by_deletion-Run a _ w refl)
  read-Run (err x) key w e = rw (e, reconcile) (unread-Run x w x.is_not_found refl)

  -- Every run of the reconciler is one of eight. The agent is gone, and nothing happens; or the read
  -- fails, and its error is returned. The agent is being deleted, and its finalizer is away already,
  -- and nothing happens; or it cannot be removed, and the error is returned; or it is removed, the
  -- deletion is counted and an event is recorded, and nothing else happens. Or the agent is live:
  -- its finalizer cannot be added, and the error is returned; or it has been added, or was there,
  -- and then nothing is written but statuses of that agent, Ready only if the policy allows it.
  pub reconcile-Run :
      (key : ObjectKey) (w : World C)
      → Run w (K.get_agent w.cluster key) (reconcile std K U net now key w)
  reconcile-Run key w = read-Run (K.get_agent w.cluster key) key w refl
