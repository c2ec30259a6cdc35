-- ===== src/System/Laws.antt =====
-- What holds in every state of the operator, whatever the order of its steps.
use a2a_registry.Common.{String, some, Result, ◌⊎◌, inl, inr, ◌≡◌}
use a2a_registry.Api.{A2aAgentStatus, zero_status}
use a2a_registry.Platform.{Std, KubeClient, ControllerUtil}
use a2a_registry.Handler.Register.{RegisterRequest}
use a2a_registry.Handler.Config.{UpdateConfigRequest}
use a2a_registry.System.{System, Step, served, reconciled, tracked, changed, Reach, here, step}
use a2a_registry.System.Keeps.{StatusStore, AllHeld}
use a2a_registry.System.Coherence.{IsCoherent, zero_status-IsCoherent}
use a2a_registry.System.Requests.{serve-AllHeld}
use a2a_registry.System.Runs.{reconcile-Safe}
use a2a_registry.System.Tracking.{reconcile_registry-AllHeld}

module _ {C Sel : Type 0} (K : KubeClient C Sel) (Holds : C → A2aAgentStatus → Type 0) where
  -- Others write no statuses: they create agents without one, and delete and edit agents.
  abbrev pub NoStatusWritten : C → C → Type 0
  NoStatusWritten c c' = (s : A2aAgentStatus) → Holds c' s → Holds c s ⊎ (s ≡ zero_status)

  module _ (store : StatusStore K Holds) (std : Std) (U : ControllerUtil)
      (decode_register : String → Result String RegisterRequest)
      (decode_update : String → Result String UpdateConfigRequest) where
    step-AllHeld :
        (x y : System C)
        → Step std K U decode_register decode_update NoStatusWritten x y
        → AllHeld store IsCoherent x.world.cluster
        → AllHeld store IsCoherent y.world.cluster
    step-AllHeld x _ (served now r) all =
        serve-AllHeld store std decode_register decode_update now x.server r x.world all
    step-AllHeld x _ (reconciled now net key) all =
        reconcile-Safe store std U net now key x.world all
    step-AllHeld x _ (tracked now key) all =
        reconcile_registry-AllHeld store std U now key (some x.server) x.world all
    step-AllHeld x _ (changed other) all =
        λ s h. elim (other s h) [ inl held ↦ all s held | inr e ↦ rw e zero_status-IsCoherent ]

    -- Take a server that stores the statuses that it is sent, others who write no statuses, and a
    -- start where every status that the cluster holds is coherent: the health is Healthy exactly in
    -- phase Ready, where there are no failures and a heartbeat; in phase Unreachable it is
    -- Unhealthy, and in phase Pending unknown. After any number of answered requests, runs of the
    -- two reconcilers and changes by others, in any order, at any times and with any network at each
    -- step, every status that the cluster holds is coherent.
    pub Reach-AllHeld :
        (start x : System C)
        → Reach std K U decode_register decode_update NoStatusWritten start x
        → AllHeld store IsCoherent start.world.cluster
        → AllHeld store IsCoherent x.world.cluster
    Reach-AllHeld start _ here all = all
    Reach-AllHeld start _ (step r s) all = step-AllHeld _ _ s (Reach-AllHeld start _ r all)
