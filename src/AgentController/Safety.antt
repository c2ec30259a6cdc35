-- ===== src/AgentController/Safety.antt =====
-- What a run of the reconciler may write: its effects, one by one.
pub mod Judged
pub mod Allowed
pub mod Writes
use a2a_registry.Common.{
  String, List, [], ◌∷◌, ◌++◌, Bool, true, false, Option, none, some, ok, err, ◌≡◌, refl, sym, ◌∙◌,
  ap, ◌≢◌, ◌⊎◌, inl, inr, arith, ◌==◌, ◌&&◌, ◌||◌, eq_iff, any, Bool-cases, if◌then◌else◌,
}
use a2a_registry.Api.{Time, A2aAgent, A2aAgentStatus, A2aRegistrySpec, ready, Condition}
use a2a_registry.Conditions.{merge_condition, condition_type_approved}
use a2a_registry.Platform.{
  AgentCard, Std, KubeClient, ControllerUtil, World, Effect, wrote, metric, recorded, Write,
  create_agent, update_agent, status_update_agent, delete_agent, update_registry,
  status_update_registry,
}
use a2a_registry.HealthCheck.{HealthResult}
use a2a_registry.AgentController.Checks.{
  check_card_match, find_conflict, is_condition_true, is_approved, requires_card_match,
}
use a2a_registry.AgentController.Steps.{
  set_status, judge, finish, update_conditions, mark_approved, mark_unchecked, mark_healthy,
}

-- The trace of `new` is that of `old`, with further effects that satisfy the predicate.
pub data Extends (P : Effect → Type 0) (old : List Effect) : List Effect → Type 0 where
  same : Extends P old old
  more : {e : Effect} {t : List Effect} → P e → Extends P old t → Extends P old (e ∷ t)

-- A condition of type Approved and status True is among these.
abbrev pub approved_in : List Condition → Bool
approved_in = any (λ c. c.type == condition_type_approved && is_condition_true c.status)

-- A merge of a condition of another type changes nothing about the approval.
pub approved_in-merge_other :
    (cs : List Condition) (new : Condition)
    → (new.type == condition_type_approved) ≡ false
    → approved_in (merge_condition cs new) ≡ approved_in cs
unfolding merge_condition
approved_in-merge_other [] new h = ground arith
approved_in-merge_other (c ∷ cs) new h = ground (
  arith,
  approved_in-merge_other cs new h,
  eq_iff c.type new.type,
  eq_iff c.type condition_type_approved,
  eq_iff new.type condition_type_approved,
)

-- A merge of a condition of type Approved and status True approves.
pub approved_in-merge_true :
    (cs : List Condition) (new : Condition)
    → (new.type == condition_type_approved) ≡ true
    → is_condition_true new.status ≡ true
    → approved_in (merge_condition cs new) ≡ true
unfolding merge_condition
approved_in-merge_true [] new h k = ground arith
approved_in-merge_true (c ∷ cs) new h k = ground (arith, approved_in-merge_true cs new h k)

finish-approved :
    (now : Time) (a : A2aAgent)
    → approved_in (finish now a).status.conditions ≡ approved_in a.status.conditions
unfolding finish
finish-approved now a = approved_in-merge_other _ _ refl ∙ approved_in-merge_other _ _ refl

module _ {P : Effect → Type 0} {old : List Effect} where
  pub Extends-if :
      (b : Bool) {t u : List Effect}
      → Extends P old t
      → Extends P old u
      → Extends P old (if b then t else u)
  Extends-if true h k = h
  Extends-if false h k = k
