-- ===== src/Conditions.antt =====
-- controllers/conditions.go, and the copy of its function in internal/registry/dashboard.go. The Go
-- functions write into the slice that they are given and return it: here the result is a new list.
pub mod Laws
use a2a_registry.Common.{String, List, [], ◌∷◌, Bool, ◌==◌, if◌then◌else◌}
use a2a_registry.Api.{Condition}

abbrev pub a2a_finalizer : String
a2a_finalizer = "a2a.io/finalizer"

abbrev pub condition_type_approved : String
condition_type_approved = "Approved"

unfoldable pub merge_condition : List Condition → Condition → List Condition
merge_condition [] new = new ∷ []
merge_condition (c ∷ cs) new = if c.type == new.type then new ∷ cs else c ∷ merge_condition cs new

unfoldable pub merge_registry_conditions : List Condition → Condition → List Condition
merge_registry_conditions [] new = new ∷ []
merge_registry_conditions (c ∷ cs) new =
    let rest = merge_registry_conditions cs new in if c.type == new.type then new ∷ cs else c ∷ rest
