-- ===== src/Webhook.antt =====
-- The admission webhooks (internal/webhook).
pub mod Version
pub mod Validation
pub mod KubernetesPlan
pub mod Compatibility
pub mod TalosPlan
