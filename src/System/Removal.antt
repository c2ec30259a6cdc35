-- ===== src/System/Removal.antt =====
-- From a deregistration by the API to an agent that is gone.
use a2a_registry.Common.{
  [], ◌∷◌, some, Result, ok, err, false, ◌==◌, ◌≡◌, ◌⊎◌, inl, inr, refl, arith, sym, ap, ◌∙◌,
  Bool-cases,
}
use a2a_registry.Api.{Time, ObjectKey, A2aAgent}
use a2a_registry.Conditions.{a2a_finalizer}
use a2a_registry.Platform.{Std, KubeClient, KubeError, ControllerUtil, World, key_of}
use a2a_registry.Resolver.{Network}
use a2a_registry.Handler.Http.{Request}
use a2a_registry.Handler.Names.{extract_name_from_path}
use a2a_registry.Handler.Query.Lookup.{agents_path}
use a2a_registry.Handler.Register.{deleted, delete_named, deregister_agent}
use a2a_registry.AgentController.Reconcile.{reconcile}
use a2a_registry.AgentController.Runs.{without_finalizer}
use a2a_registry.AgentController.Deletion.{
  IsGone, FinalizerStore, reconcile-Settled, reconcile-gone,
}
use a2a_registry.System.Directory.{named, set_deletion_timestamp}

-- What a delete does to what is read: the agent is gone, or is found with a deletion timestamp. A
-- client that reads from a cache does this once the cache has seen the delete.
pub record DeletionStore {C Sel : Type 0} (K : KubeClient C Sel) : Type 0 where
  pub get_agent_key :
      (c : C) (key : ObjectKey) (a : A2aAgent) → K.get_agent c key ≡ ok a → key_of a.metadata ≡ key
  pub read_delete :
      (c : C) (key : ObjectKey) (a : A2aAgent)
      → K.get_agent c key ≡ ok a
      → (K.delete_agent c key).0 ≡ ok tt
      → IsGone K (K.delete_agent c key).1 key
        ⊎ ((t : Time) × (K.get_agent (K.delete_agent c key).1 key
              ≡ ok (set_deletion_timestamp t a)))

module _ {C Sel : Type 0} (std : Std) (K : KubeClient C Sel) (U : ControllerUtil) (net : Network)
    (now : Time) where
  -- The agent is gone, or the server refused to take its finalizer away and the run returns that.
  abbrev pub EndsGone : ObjectKey → World C → Type 0
  EndsGone key w =
      let (answer, after) = reconcile std K U net now key w in
      IsGone K after.cluster key
      ⊎ ((e : KubeError) × (b : A2aAgent) × (b.metadata.finalizers
            ≡ U.remove_finalizer (a2a_finalizer ∷ []) a2a_finalizer)
          × ((K.update_agent w.cluster b).0 ≡ err e)
          × (answer ≡ err e))

  module _ (store : FinalizerStore K U) (deletes : DeletionStore K) where
    marked-EndsGone :
        (key : ObjectKey) (a : A2aAgent) (t : Time) (w : World C)
        → key_of a.metadata ≡ key
        → K.get_agent w.cluster key ≡ ok a
        → a.metadata.deletion_timestamp ≡ some t
        → a.metadata.finalizers ≡ (a2a_finalizer ∷ [])
        → EndsGone key w
    marked-EndsGone key a t w same read marked own =
        let found = ap (K.get_agent w.cluster) same ∙ read in
        let removed = ap (λ fs. U.remove_finalizer fs a2a_finalizer) own in
        elim (reconcile-Settled std K U net now store a t w found marked) [
          | inl (e, sent, answer) ↦
              rw (sym same) (inr (e, without_finalizer std K U net now a, removed, sent, answer))
          | inr settled ↦ rw (sym same) (inl (settled.gone own))
        ]

    IsGone-EndsGone : (key : ObjectKey) (w : World C) → IsGone K w.cluster key → EndsGone key w
    IsGone-EndsGone key w gone = rw (reconcile-gone std K U net now key w gone) (inl gone)

    deleted-ok :
        (x : Result KubeError (Unit {0})) (w : World C)
        → (deleted std K x w).0.status ≡ 204
        → (x ≡ ok tt) × ((deleted std K x w).1.cluster ≡ w.cluster)
    deleted-ok (err e) w done = absurd (omega arith)
    deleted-ok (ok u) w done = (refl, refl)

    delete_named-EndsGone :
        (key : ObjectKey) (a : A2aAgent) (w : World C)
        → K.get_agent w.cluster key ≡ ok a
        → a.metadata.finalizers ≡ (a2a_finalizer ∷ [])
        → (delete_named std K key w).0.status ≡ 204
        → EndsGone key (delete_named std K key w).1
    delete_named-EndsGone key a w read own done =
        let after = (delete_named std K key w).1 in
        let (sent, same) = deleted-ok (K.delete_agent w.cluster key).0 _ done in
        elim (deletes.read_delete w.cluster key a read sent) [
          | inl gone ↦ IsGone-EndsGone key after (rw same gone)
          | inr (t, found) ↦
              marked-EndsGone key (set_deletion_timestamp t a) t after
                (deletes.get_agent_key w.cluster key a read) (rw same found) refl own
        ]

    deregister_agent-named :
        (r : Request) (w : World C)
        → extract_name_from_path r.path agents_path == "" ≡ false
        → deregister_agent std K r w ≡ delete_named std K (named r) w
    unfolding deregister_agent
    deregister_agent-named r w given = rw (given, deregister_agent) refl

    -- If reads see the deletes and updates before them: for an agent that has the finalizer of this
    -- program and no other, once a deregistration was answered with 204, a run of the reconciler for
    -- the agent's key leaves no such agent, or returns the error of the server, which refused to take
    -- the finalizer away.
    pub reconcile-deregister_agent :
        (r : Request) (a : A2aAgent) (w : World C)
        → K.get_agent w.cluster (named r) ≡ ok a
        → a.metadata.finalizers ≡ (a2a_finalizer ∷ [])
        → (deregister_agent std K r w).0.status ≡ 204
        → EndsGone (named r) (deregister_agent std K r w).1
    unfolding deregister_agent
    reconcile-deregister_agent r a w read own done =
        elim (Bool-cases (extract_name_from_path r.path agents_path == "")) [
          | inl none_given ↦ absurd (ground (arith, none_given, done))
          | inr given ↦
              let same = deregister_agent-named r w given in
              let done' = ap (λ x. x.0.status) (sym same) ∙ done in
              rw same (delete_named-EndsGone (named r) a w read own done')
        ]
