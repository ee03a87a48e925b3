-- ===== src/Engine.antt =====
-- internal/engine: which policy applies to a request, and the decision.
pub mod Matcher
pub mod Evaluator
pub mod Lease
