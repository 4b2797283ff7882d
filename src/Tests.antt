-- ===== src/Tests.antt =====
-- Concrete inputs: a run of the code on each, and the theorems applied there.
mod Fixtures
mod Ledger
mod Idempotency
mod Mandate
mod Executor
mod Agent
mod Review
mod Ingest
mod Money
mod World
mod Metrics
mod Explainer
mod Live
mod Recorder
