-- ===== src/Diagnose.antt =====
-- diagnose/: the decline classifier, the propensity table and the explainer.
pub mod Classifier
pub mod Propensity
pub mod Explainer
