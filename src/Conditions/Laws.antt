-- ===== src/Conditions/Laws.antt =====
-- What a merge does to the conditions of the other types, and to the order and the number of them.
use mathlib.Core.Path.{subst}
use a2a_registry.Common.{
  String, List, [], ◌∷◌, Option, some, ◌≡◌, refl, sym, ◌≢◌, ◌==◌, eq_iff, arith, All, if◌then◌else◌,
  find?, inl, inr, Bool-cases,
}
use a2a_registry.Api.{Condition}
use a2a_registry.Conditions.{merge_condition, merge_registry_conditions}

-- The first condition of a type.
abbrev pub condition_of : String → List Condition → Option Condition
condition_of t = find? (λ c. c.type == t)

-- No two conditions have the same type.
abbrev pub DistinctTypes : List Condition → Type 0
DistinctTypes [] = Unit
DistinctTypes (c ∷ cs) = All (λ d. d.type ≢ c.type) cs × DistinctTypes cs

-- After a merge, the condition of the new one's type is the new one, and the condition of any
-- other type is what it was.
pub condition_of-merge_condition :
    (t : String) (cs : List Condition) (new : Condition)
    → condition_of t (merge_condition cs new)
      ≡ (if new.type == t then some new else condition_of t cs)
unfolding merge_condition
condition_of-merge_condition t [] new = refl
condition_of-merge_condition t (c ∷ cs) new = ground (
  arith,
  condition_of-merge_condition t cs new,
  eq_iff c.type new.type,
  eq_iff c.type t,
  eq_iff new.type t,
)

merge_condition-other :
    (c : Condition) (cs : List Condition) (new : Condition)
    → All (λ d. d.type ≢ c.type) cs
    → new.type ≢ c.type
    → All (λ d. d.type ≢ c.type) (merge_condition cs new)
unfolding merge_condition
merge_condition-other c [] new h n = (n, tt)
merge_condition-other c (d ∷ cs) new h n = ground (arith, merge_condition-other c cs new)

-- A merge never makes two conditions of one type, if there were none before.
pub merge_condition-DistinctTypes :
    (cs : List Condition) (new : Condition)
    → DistinctTypes cs
    → DistinctTypes (merge_condition cs new)
unfolding merge_condition
merge_condition-DistinctTypes [] new h = (tt, tt)
merge_condition-DistinctTypes (c ∷ cs) new h = elim (Bool-cases (c.type == new.type)) [
  | inl same ↦
      rw same (subst (λ t. All (λ d. d.type ≢ t) cs) ((eq_iff c.type new.type).0 same) h.0, h.1)
  | inr other ↦ rw other (
    merge_condition-other c cs new h.0 (λ e. cc (other, (eq_iff c.type new.type).1 (sym e))),
    merge_condition-DistinctTypes cs new h.1,
  )
]

-- The copy of the function in the API server's package computes the same list.
pub merge_registry_conditions-eq :
    (cs : List Condition) (new : Condition)
    → merge_registry_conditions cs new ≡ merge_condition cs new
unfolding merge_condition merge_registry_conditions
merge_registry_conditions-eq [] new = refl
merge_registry_conditions-eq (c ∷ cs) new = ground (arith, merge_registry_conditions-eq cs new)
