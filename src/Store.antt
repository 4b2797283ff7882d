-- ===== src/Store.antt =====
-- store/: canonical payloads, the hash-chained ledger, idempotency claims and the event store.
pub mod Canonical
pub mod Ledger
pub mod Idempotency
pub mod Events
