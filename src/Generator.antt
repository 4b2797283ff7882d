-- ===== src/Generator.antt =====
-- generator/: the stochastic world that answers the actions of a policy.
pub mod World
pub mod Profiles
pub mod Population
pub mod Oracle
