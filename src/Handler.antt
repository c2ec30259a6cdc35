-- ===== src/Handler.antt =====
-- The HTTP handlers of internal/registry/handler.go and internal/registry/dashboard.go.
pub mod Http
pub mod Names
pub mod Entry
pub mod Query
pub mod Register
pub mod Config
