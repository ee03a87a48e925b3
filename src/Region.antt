-- ===== src/Region.antt =====
-- internal/region/allocator.go: a global limit split over regions by weight, and moved away from regions
-- that are not healthy.
pub mod Split
pub mod Health
