-- ===== src/Api.antt =====
-- The custom resources of api/v1: the types of the two Go files a2aagent_types.go and
-- a2aregistry_types.go, and the parts of the Kubernetes metadata that the program reads or writes.
mod Meta
mod Agent
mod Registry
pub use Meta.*
pub use Agent.*
pub use Registry.*
