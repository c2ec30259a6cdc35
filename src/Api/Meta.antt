-- ===== src/Api/Meta.antt =====
-- Kubernetes metadata, as far as the program uses it: the fields of `metav1.ObjectMeta` and of
-- `metav1.Condition` that appear in the source. These two types are declared outside the
-- repository; the records here only name the fields.
use a2a_registry.Common.{ℕ, String, Option, List}
use a2a_registry.Common.Int32.{ℤ}

-- An instant, in nanoseconds since some fixed instant in the past.
abbrev pub Time : Type 0
Time = ℕ

pub record ObjectKey : Type 0 where
  pub namespace : String
  pub name : String

pub record ObjectMeta : Type 0 where
  pub name : String
  pub namespace : String
  pub generation : ℤ
  pub deletion_timestamp : Option Time
  pub finalizers : List String

-- `metav1.ConditionStatus`.
pub data ConditionStatus : Type 0 where
  condition_true condition_false condition_unknown : ConditionStatus

pub record Condition : Type 0 where
  pub type : String
  pub status : ConditionStatus
  pub observed_generation : ℤ
  pub last_transition_time : Time
  pub reason : String
  pub message : String
