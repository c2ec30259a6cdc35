-- ===== src/Manager/Calls.antt =====
-- The process of cmd/manager/main.go: the calls that it makes, with their answers from an environment
-- with an unknown state, and `os.Exit`.
use a2a_registry.Common.{ℕ, String, List, ◌∷◌, Bool, Option, none, some, Result, ok, err}
use a2a_registry.Platform.{KubeError}
use a2a_registry.Server.{Server}

-- The kinds of custom resources.
pub data Kind : Type 0 where
  kind_agent kind_registry : Kind

-- `ctrl.NewControllerManagedBy(mgr).For(...)`, with or without the `WithEventFilter` of a
-- `GenerationChangedPredicate`.
pub record ControllerBuilder : Type 0 where
  pub for_kind : Kind
  pub generation_changed_predicate : Bool

pub record ManagerOptions : Type 0 where
  pub metrics_bind_address : String
  pub health_probe_bind_address : String
  pub leader_election : Bool
  pub leader_election_id : String

-- The fields that are not handed out by the manager itself; the timeout is in seconds.
pub record AgentReconciler : Type 0 where
  pub resolver_timeout : ℕ
  pub recorder : String

pub record RegistryReconciler : Type 0 where
  pub api_server : Server
  pub recorder : String

pub data Call : Type 0 where
  get_config_or_die new_clientset : Call
  get_namespace create_namespace : String → Call
  new_manager : ManagerOptions → Call
  add_runnable : Server → Call
  complete_agent_controller : ControllerBuilder → AgentReconciler → Call
  complete_registry_controller : ControllerBuilder → RegistryReconciler → Call
  complete_webhook : Kind → Call
  add_healthz_check add_readyz_check : String → Call
  start : Call

-- The error of a call, or none, in a state that the call may change.
pub record Environment (W : Type 0) : Type 0 where
  pub answer : W → Call → Option KubeError × W

-- The calls with their answers, the newest first.
pub record ProcessState (W : Type 0) : Type 0 where
  pub env : W
  pub calls : List (Call × Option KubeError)

-- A result, or the status that the process exits with.
abbrev pub Process : Type 0 → Type 0 → Type 0
Process W A = ProcessState W → Result ℕ A × ProcessState W

module _ {W A : Type 0} where
  abbrev pub pure : A → Process W A
  pure a s = (ok a, s)

  abbrev pub exit : ℕ → Process W A
  exit status s = (err status, s)

module _ {W A B : Type 0} where
  abbrev pub continue : Result ℕ A → (A → Process W B) → Process W B
  continue (ok a) f s = f a s
  continue (err status) f s = (err status, s)

  infixl 10 ◌>>=◌ ◌>>◌
  unfoldable pub ◌>>=◌ : Process W A → (A → Process W B) → Process W B
  ◌>>=◌ m f s = let (r, s') = m s in continue r f s'

  abbrev pub ◌>>◌ : Process W A → Process W B → Process W B
  m >> n = m >>= λ _. n

module _ {W : Type 0} (E : Environment W) where
  unfoldable pub call : Call → Process W (Option KubeError)
  call c s = let (e, w) = E.answer s.env c in (ok e, record { env = w; calls = (c, e) ∷ s.calls })

  abbrev exit_on : Option KubeError → Process W (Unit {0})
  exit_on none = pure tt
  exit_on (some e) = exit 1

  -- A call whose error is logged before `os.Exit(1)`.
  unfoldable pub must : Call → Process W (Unit {0})
  unfolding ◌>>=◌ call
  must c = do e ← call c; exit_on e
