-- ===== src/System.antt =====
-- The operator as a whole: requests that its API server answers and runs of its two reconcilers, in
-- any order, with changes by other users of the cluster in between. The two reconcilers run in
-- goroutines of their own; a run, and an answer, is one step here.
pub mod Keeps
pub mod Coherence
pub mod Programs
pub mod Requests
pub mod Runs
pub mod Tracking
pub mod Directory
pub mod Refinement
pub mod Removal
pub mod Approval
pub mod Laws
use a2a_registry.Common.{String, Option, none, some, Result, ok, err}
use a2a_registry.Api.{Time, ObjectKey, A2aAgentStatus}
use a2a_registry.Platform.{Std, KubeClient, ControllerUtil, World}
use a2a_registry.Handler.Http.{Request}
use a2a_registry.Handler.Register.{RegisterRequest}
use a2a_registry.Handler.Config.{UpdateConfigRequest}
use a2a_registry.Resolver.{Network}
use a2a_registry.Server.{Server, serve}
use a2a_registry.AgentController.Reconcile.{reconcile}
use a2a_registry.RegistryController.{Outcome, reconcile_registry}

pub record System (C : Type 0) : Type 0 where
  pub world : World C
  pub server : Server

-- The server that a run of the registry's reconciler leaves; a run that fails pushes nothing.
abbrev pub server_after : {E : Type 0} → Server → Result E Outcome → Server
server_after s (err e) = s
server_after s (ok (requeue, none)) = s
server_after s (ok (requeue, some t)) = t

module _ {C Sel : Type 0} (std : Std) (K : KubeClient C Sel) (U : ControllerUtil)
    (decode_register : String → Result String RegisterRequest)
    (decode_update : String → Result String UpdateConfigRequest) (Elsewhere : C → C → Type 0) where
  -- A step, at a time and with the network as it is then. `Elsewhere` says what others may do to the
  -- cluster.
  pub data Step (x : System C) : System C → Type 0 where
    served :
        (now : Time) (r : Request)
        → Step x (record x {
          world = (serve std K decode_register decode_update now x.server r x.world).1;
        })
    reconciled :
        (now : Time) (net : Network) (key : ObjectKey)
        → Step x (record x { world = (reconcile std K U net now key x.world).1 })
    tracked :
        (now : Time) (key : ObjectKey)
        → Step x (record {
          world = (reconcile_registry std K U now key (some x.server) x.world).1;
          server =
              server_after x.server (reconcile_registry std K U now key (some x.server) x.world).0;
        })
    changed :
        {c : C}
        → Elsewhere x.world.cluster c
        → Step x (record x { world = record x.world { cluster = c } })

  -- The states that some steps lead to.
  pub data Reach (start : System C) : System C → Type 0 where
    here : Reach start start
    step : {x y : System C} → Reach start x → Step x y → Reach start y
