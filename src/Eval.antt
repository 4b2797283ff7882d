-- ===== src/Eval.antt =====
-- eval/: the harness that runs a policy against the world, the costs, and the baseline policies.
pub mod Harness
pub mod Baselines
pub mod Outcomes
pub mod Statistics
pub mod Metrics
pub mod Runner
