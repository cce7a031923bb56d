-- ===== src/Decision.antt =====
-- reviewer/decision.py: what lets a reviewed head be merged.
pub mod Ci
pub mod Reviews
