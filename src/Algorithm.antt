-- ===== src/Algorithm.antt =====
-- internal/algorithm: the seven rate limiting algorithms.
pub mod Common
pub mod Budget
pub mod FixedWindow
pub mod Quota
pub mod Concurrency
pub mod SlidingLog
pub mod Bucket
pub mod TokenBucket
pub mod LeakyBucket
pub mod SlidingCounter
