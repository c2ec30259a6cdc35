-- ===== src/AgentController.antt =====
-- controllers/a2aagent_controller.go. `Checks` has its reads, `Steps` its changes of
-- a status, and `Reconcile` the whole; the proofs are in the other modules.
pub mod Checks
pub mod Steps
pub mod Reconcile
pub mod Verdicts
pub mod Failures
pub mod Safety
pub mod Deletion
pub mod Runs
pub mod Live
