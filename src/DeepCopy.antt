-- ===== src/DeepCopy.antt =====
-- The deep copies of api/v1: the methods `DeepCopyInto`, `DeepCopy` and `DeepCopyObject` that
-- a2aagent_types.go and a2aregistry_types.go write by hand, on a heap on which structs share memory.
pub mod Memory
pub mod Structs
pub mod Cells
pub mod Copies
pub mod Slices
pub mod AgentTypes
pub mod RegistryTypes
pub mod Independence
