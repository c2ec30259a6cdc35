-- ===== src/Webhook.antt =====
-- The admission webhooks of api/v1: a2aagent_webhook.go and a2aregistry_webhook.go. The validators
-- collect messages; the empty list of messages is Go's nil error.
pub mod AgentHook
pub mod RegistryHook
