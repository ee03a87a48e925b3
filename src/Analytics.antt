-- ===== src/Analytics.antt =====
-- internal/analytics: what is counted, and the trail of decisions.
pub mod Recorder
pub mod Audit
