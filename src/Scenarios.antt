-- ===== src/Scenarios.antt =====
-- Concrete runs: sample objects and the theorems of the other modules at them.
mod Samples
mod Copies
mod Processes
mod Deletions
mod Directories
mod Operators
mod Agents
mod Requests
mod Texts
