-- ===== src/System/Programs.antt =====
-- Programs that keep every status coherent, and how they are put together.
use a2a_registry.Api.{A2aAgent, A2aAgentStatus}
use a2a_registry.Platform.{KubeClient, Exec, Effect, pure, gets, emit, status_update, ◌>>=◌, ◌>>◌}
use a2a_registry.AgentController.Reconcile.{Requeue}
use a2a_registry.System.Keeps.{
  StatusStore, Keeps, pure-Keeps, gets-Keeps, emit-Keeps, bind-Keeps, status_update-Keeps,
}
use a2a_registry.System.Coherence.{IsCoherent}

abbrev pub Coherent : A2aAgent → Type 0
Coherent a = IsCoherent a.status

abbrev pub Done : {A : Type 0} → A → Type 0
Done a = Unit

module _ {C Sel : Type 0} {K : KubeClient C Sel} {Holds : C → A2aAgentStatus → Type 0}
    (store : StatusStore K Holds) where
  abbrev pub Safe : {A : Type 0} → (A → Type 0) → Exec C A → Type 0
  Safe Q m = Keeps store IsCoherent Q m

  pub done : {A : Type 0} (a : A) → Safe Done (pure a)
  done a = pure-Keeps store IsCoherent _ a tt

  pub kept : (a : A2aAgent) → IsCoherent a.status → Safe Coherent (pure a)
  kept a c = pure-Keeps store IsCoherent _ a c

  -- A write of a status, at the end.
  pub written :
      (a : A2aAgent) (r : Requeue) → IsCoherent a.status → Safe Done (status_update K a >> pure r)
  written a r c =
      bind-Keeps store IsCoherent _ _ _ _ (status_update-Keeps store IsCoherent a c) λ _ _. done r

  -- A read, whatever it gives.
  pub reads :
      {A B : Type 0} (f : C → A) (g : A → Exec C B)
      → ((a : A) → Safe Done (g a))
      → Safe Done (gets f >>= g)
  reads f g h = bind-Keeps store IsCoherent _ _ _ _ (gets-Keeps store IsCoherent f) λ a _. h a

  pub emits : {A : Type 0} (e : Effect) (m : Exec C A) → Safe Done m → Safe Done (emit e >> m)
  emits e m h = bind-Keeps store IsCoherent _ _ _ _ (emit-Keeps store IsCoherent e) λ _ _. h
