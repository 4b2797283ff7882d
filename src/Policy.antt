-- ===== src/Policy.antt =====
-- policy/: the mandate and its tokens, the executor, the review queue and the agent.
pub mod Mandate
pub mod Gateway
pub mod Executor
pub mod Review
pub mod Config
pub mod Agent
