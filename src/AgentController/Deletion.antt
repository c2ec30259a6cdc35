-- ===== src/AgentController/Deletion.antt =====
-- How the deletion of an agent ends: the runs of the reconciler after the deletion timestamp.
use a2a_registry.Common.{
  ℕ, ◌+◌, String, List, [], ◌∷◌, true, false, Option, none, some, Result, ok, err, ◌≡◌, ◌⊎◌, inl,
  inr, refl, ap, sym, ◌∙◌, false≢true, arith, Bool-cases, Result-cases, if◌then◌else◌,
}
use a2a_registry.Api.{Time, ObjectKey, A2aAgent}
use a2a_registry.Conditions.{a2a_finalizer}
use a2a_registry.Platform.{
  Std, KubeClient, KubeError, ControllerUtil, World, Effect, wrote, metric, update_agent, key_of,
  deregistrations_total_inc, ◌>>=◌,
}
use a2a_registry.Resolver.{Network}
use a2a_registry.AgentController.Reconcile.{
  Requeue, removed_event, finalize, by_deletion, reconcile_found, reconcile,
}
use a2a_registry.AgentController.Runs.{has_finalizer, without_finalizer}

-- The read of the key answers that there is no such agent.
abbrev pub IsGone : {C Sel : Type 0} → KubeClient C Sel → C → ObjectKey → Type 0
IsGone K c key = (e : KubeError) × (K.get_agent c key ≡ err e) × (e.is_not_found ≡ true)

-- How the API server deals with finalizers, and `controllerutil` with their lists: an agent that is
-- being deleted is found with the finalizers that an update sent, or it is gone; and it is gone once
-- there are none. A client that reads from a cache does this once the cache has seen the update.
pub record FinalizerStore {C Sel : Type 0} (K : KubeClient C Sel) (U : ControllerUtil)
    : Type 0 where
  pub read_update :
      (c : C) (a b : A2aAgent) (t : Time)
      → a.metadata.deletion_timestamp ≡ some t
      → (K.update_agent c a).0 ≡ ok b
      → IsGone K (K.update_agent c a).1 (key_of a.metadata)
        ⊎ ((x : A2aAgent) × (K.get_agent (K.update_agent c a).1 (key_of a.metadata) ≡ ok x)
            × (x.metadata.deletion_timestamp ≡ some t)
            × (x.metadata.finalizers ≡ a.metadata.finalizers))
  pub last_finalizer :
      (c : C) (a b : A2aAgent) (t : Time)
      → a.metadata.deletion_timestamp ≡ some t
      → a.metadata.finalizers ≡ []
      → (K.update_agent c a).0 ≡ ok b
      → IsGone K (K.update_agent c a).1 (key_of a.metadata)
  pub contains_own : (f : String) → U.contains_finalizer (f ∷ []) f ≡ true
  pub remove_own : (f : String) → U.remove_finalizer (f ∷ []) f ≡ []
  pub contains_removed :
      (fs : List String) (f : String) → U.contains_finalizer (U.remove_finalizer fs f) f ≡ false

-- How many deregistrations a trace counts.
abbrev pub deregistrations : List Effect → ℕ
deregistrations [] = 0
deregistrations (metric deregistrations_total_inc ∷ trace) = 1 + deregistrations trace
deregistrations (_ ∷ trace) = deregistrations trace

module _ {C Sel : Type 0} (std : Std) (K : KubeClient C Sel) (U : ControllerUtil) (net : Network)
    (now : Time) where
  -- The run did what is to do: another one does nothing, the deregistration is counted if this run
  -- released the agent, and the agent is gone if nobody else holds it.
  pub record Settled (a : A2aAgent) (w : World C) (x : Result KubeError Requeue × World C)
      : Type 0 where
    pub answer : x.0 ≡ ok none
    pub again : reconcile std K U net now (key_of a.metadata) x.1 ≡ (ok none, x.1)
    pub counted :
        deregistrations x.1.trace
        ≡ (if has_finalizer std K U net now a then 1 else 0) + deregistrations w.trace
    pub gone :
        a.metadata.finalizers ≡ (a2a_finalizer ∷ []) → IsGone K x.1.cluster (key_of a.metadata)

  -- The server refused to take the finalizer away, and the run returns its error.
  abbrev pub Refused : A2aAgent → World C → Result KubeError Requeue × World C → Type 0
  Refused a w x =
      (e : KubeError) × ((K.update_agent w.cluster (without_finalizer std K U net now a)).0 ≡ err e)
      × (x.0 ≡ err e)

  pub reconcile-gone :
      (key : ObjectKey) (w : World C)
      → IsGone K w.cluster key
      → reconcile std K U net now key w ≡ (ok none, w)
  unfolding reconcile
  reconcile-gone key w (e, read, missing) = rw (read, reconcile, missing) refl

  reconcile-left :
      (key : ObjectKey) (w : World C) (x : A2aAgent) (t : Time)
      → K.get_agent w.cluster key ≡ ok x
      → x.metadata.deletion_timestamp ≡ some t
      → has_finalizer std K U net now x ≡ false
      → reconcile std K U net now key w ≡ (ok none, w)
  unfolding reconcile reconcile_found finalize
  reconcile-left key w x t read deleted bare =
      rw (read, reconcile, reconcile_found, deleted, finalize, bare) refl

  by_deletion-finalize :
      (o : Option Time) (a : A2aAgent) (t : Time)
      → o ≡ some t
      → by_deletion std K U net now o a ≡ finalize std K U a
  by_deletion-finalize o a t deleted = rw deleted refl

  reconcile-deleted :
      (a : A2aAgent) (t : Time) (w : World C)
      → K.get_agent w.cluster (key_of a.metadata) ≡ ok a
      → a.metadata.deletion_timestamp ≡ some t
      → reconcile std K U net now (key_of a.metadata) w ≡ finalize std K U a w
  unfolding reconcile reconcile_found
  reconcile-deleted a t w read deleted =
      let ends = by_deletion-finalize a.metadata.deletion_timestamp a t deleted in
      rw (read, reconcile) (ap (λ m. m w) ends)

  -- The world after the release.
  abbrev released : A2aAgent → A2aAgent → World C → World C
  released a b w = record {
    cluster = (K.update_agent w.cluster (without_finalizer std K U net now a)).1;
    trace =
        removed_event std K U b
        ∷ metric deregistrations_total_inc
        ∷ wrote (update_agent (without_finalizer std K U net now a))
        ∷ w.trace;
  }

  module _ (store : FinalizerStore K U) where
    bare-Settled :
        (a : A2aAgent) (t : Time) (w : World C)
        → K.get_agent w.cluster (key_of a.metadata) ≡ ok a
        → a.metadata.deletion_timestamp ≡ some t
        → has_finalizer std K U net now a ≡ false
        → Settled a w (ok none, w)
    bare-Settled a t w read deleted bare = record {
      answer = refl;
      again = reconcile-left (key_of a.metadata) w a t read deleted bare;
      counted = rw bare (omega arith);
      gone = λ own. absurd (
          false≢true (
            sym bare
            ∙ (ap (λ fs. U.contains_finalizer fs a2a_finalizer) own
                ∙ store.contains_own a2a_finalizer)));
    }

    released-Settled :
        (a b : A2aAgent) (t : Time) (w : World C)
        → a.metadata.deletion_timestamp ≡ some t
        → has_finalizer std K U net now a ≡ true
        → (K.update_agent w.cluster (without_finalizer std K U net now a)).0 ≡ ok b
        → Settled a w (ok none, released a b w)
    released-Settled a b t w deleted held sent = record {
      answer = refl;
      again =
          elim (store.read_update w.cluster (without_finalizer std K U net now a) b t deleted
            sent) [
              | inl gone ↦ reconcile-gone (key_of a.metadata) (released a b w) gone
              | inr (x, found, still, left) ↦
                  reconcile-left (key_of a.metadata) (released a b w) x t found still
                    (rw left (store.contains_removed a.metadata.finalizers a2a_finalizer))
            ];
      counted = rw held refl;
      gone = λ own.
          store.last_finalizer w.cluster (without_finalizer std K U net now a) b t deleted
            (rw own (store.remove_own a2a_finalizer)) sent;
    }

    finalize-Settled :
        (a : A2aAgent) (t : Time) (w : World C)
        → K.get_agent w.cluster (key_of a.metadata) ≡ ok a
        → a.metadata.deletion_timestamp ≡ some t
        → Refused a w (finalize std K U a w) ⊎ Settled a w (finalize std K U a w)
    unfolding finalize ◌>>=◌
    finalize-Settled a t w read deleted = elim (Bool-cases (has_finalizer std K U net now a)) [
      | inr bare ↦ rw (bare, finalize) (inr (bare-Settled a t w read deleted bare))
      | inl held ↦
          elim (Result-cases (K.update_agent w.cluster (without_finalizer std K U net now a)).0) [
            | inl (b, e) ↦ rw (held, e, finalize) (inr (released-Settled a b t w deleted held e))
            | inr (x, e) ↦ rw (held, e, finalize) (inl (x, refl, refl))
          ]
    ]

    -- If the server deals with finalizers as documented: a run for the key of an agent that is
    -- found there with a deletion timestamp either returns the error of the server, which refused
    -- the update that takes the finalizer away; or it has done all there is to do. In the second
    -- case it returns no error and asks for no further run, another run for the key changes
    -- nothing, the deregistration is counted once if the agent had the finalizer and else not, and
    -- if it had no other finalizers, then it is gone.
    pub reconcile-Settled :
        (a : A2aAgent) (t : Time) (w : World C)
        → K.get_agent w.cluster (key_of a.metadata) ≡ ok a
        → a.metadata.deletion_timestamp ≡ some t
        → Refused a w (reconcile std K U net now (key_of a.metadata) w)
          ⊎ Settled a w (reconcile std K U net now (key_of a.metadata) w)
    reconcile-Settled a t w read deleted =
        rw (reconcile-deleted a t w read deleted) (finalize-Settled a t w read deleted)
