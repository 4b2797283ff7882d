-- ===== src/Ingest.antt =====
-- ingest/: webhook deliveries.
pub mod Json
pub mod Signature
pub mod Webhook
