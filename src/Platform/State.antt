-- ===== src/Platform/State.antt =====
-- The state that a handler or a reconciler changes: the cluster, and the trace of its calls on the
-- client's writing methods, on the metrics and on the event recorder, the newest first. A method
-- that may fail is an action of `Exec`: what it did before an error stays done.
use a2a_registry.Common.{ℕ, String, List, ◌∷◌, Result, ok, err}
use a2a_registry.Api.{ObjectKey, ObjectMeta, A2aAgent, A2aRegistry}
use a2a_registry.Platform.Client.{KubeError, KubeClient}

pub data Write : Type 0 where
  create_agent update_agent status_update_agent : A2aAgent → Write
  delete_agent : ObjectKey → Write
  update_registry status_update_registry : A2aRegistry → Write

-- The calls on the Prometheus metrics of internal/metrics.
pub data MetricCall : Type 0 where
  agent_count_reset : MetricCall
  agent_count_inc : String → String → MetricCall
  health_check_duration_observe : ℕ → MetricCall
  health_check_failures_total_inc : MetricCall
  agent_card_fetch_errors_total_inc : MetricCall
  registrations_total_inc : MetricCall
  deregistrations_total_inc : MetricCall
  api_request_duration_observe : String → String → MetricCall

pub data EventType : Type 0 where
  event_type_normal event_type_warning : EventType

-- A call of `Recorder.Event` or `Recorder.Eventf`: the object, and the formatted message.
pub record Event : Type 0 where
  pub object : ObjectMeta
  pub type : EventType
  pub reason : String
  pub message : String

pub data Effect : Type 0 where
  wrote : Write → Effect
  metric : MetricCall → Effect
  recorded : Event → Effect

pub record World (C : Type 0) : Type 0 where
  pub cluster : C
  pub trace : List Effect

abbrev pub Exec : Type 0 → Type 0 → Type 0
Exec C A = World C → Result KubeError A × World C

module _ {C A : Type 0} where
  abbrev pub pure : A → Exec C A
  pure a w = (ok a, w)

  abbrev pub raise : KubeError → Exec C A
  raise e w = (err e, w)

  abbrev pub lift : Result KubeError A → Exec C A
  lift r w = (r, w)

  -- A read of the cluster, whose error the caller handles as a value.
  abbrev pub gets : (C → A) → Exec C A
  gets f w = (ok (f w.cluster), w)

  -- `err` as a value: Go code that goes on after a failed call.
  abbrev pub attempt : Exec C A → Exec C (Result KubeError A)
  attempt m w = let (r, w') = m w in (ok r, w')

module _ {C : Type 0} where
  abbrev pub emit : Effect → Exec C (Unit {0})
  emit e w = (ok tt, record w { trace = e ∷ w.trace })

module _ {C A B : Type 0} where
  abbrev pub continue : Result KubeError A → (A → Exec C B) → Exec C B
  continue (ok a) f w = f a w
  continue (err e) f w = (err e, w)

  infixl 10 ◌>>=◌ ◌>>◌
  unfoldable pub ◌>>=◌ : Exec C A → (A → Exec C B) → Exec C B
  ◌>>=◌ m f w = let (r, w') = m w in continue r f w'

  abbrev pub ◌>>◌ : Exec C A → Exec C B → Exec C B
  m >> n = m >>= λ _. n

-- The writing methods of the client, with their trace.
module _ {C Sel : Type 0} (K : KubeClient C Sel) where
  abbrev pub create : A2aAgent → Exec C A2aAgent
  create a w =
      let (r, c) = K.create_agent w.cluster a in
      (r, record { cluster = c; trace = wrote (create_agent a) ∷ w.trace })

  abbrev pub update : A2aAgent → Exec C A2aAgent
  update a w =
      let (r, c) = K.update_agent w.cluster a in
      (r, record { cluster = c; trace = wrote (update_agent a) ∷ w.trace })

  abbrev pub status_update : A2aAgent → Exec C A2aAgent
  status_update a w =
      let (r, c) = K.status_update_agent w.cluster a in
      (r, record { cluster = c; trace = wrote (status_update_agent a) ∷ w.trace })

  abbrev pub delete : ObjectKey → Exec C (Unit {0})
  delete key w =
      let (r, c) = K.delete_agent w.cluster key in
      (r, record { cluster = c; trace = wrote (delete_agent key) ∷ w.trace })

  abbrev pub update_reg : A2aRegistry → Exec C A2aRegistry
  update_reg g w =
      let (r, c) = K.update_registry w.cluster g in
      (r, record { cluster = c; trace = wrote (update_registry g) ∷ w.trace })

  abbrev pub status_update_reg : A2aRegistry → Exec C A2aRegistry
  status_update_reg g w =
      let (r, c) = K.status_update_registry w.cluster g in
      (r, record { cluster = c; trace = wrote (status_update_registry g) ∷ w.trace })
