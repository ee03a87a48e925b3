-- ===== src/Algorithm/Common/Windows.antt =====
-- What holds of the windows and costs of common.go.
use rlaas.Base.{ℕ, ◌+◌, ◌*◌, ◌%◌, ◌<◌, arith}
use rlaas.Base.Int.{pos, ◌+ℤ◌, ◌-ℤ◌, ◌≤ℤ◌, ◌<ℤ◌, floor_mod, +ℤ_parts, -ℤ_parts}
use rlaas.Base.Time.{Time, day_ns, add, truncate_bounds, floor_mod-lt}
use rlaas.Base.Calendar.{place_of, weekday, midnight, offset-lt-days}
use rlaas.Model.{RequestContext, AlgorithmConfig}
use rlaas.Algorithm.Common.{window_duration, window_start, window_end, cost}

-- The time lies between the midnight of `n` days before and the end of `m` days, for `n` below `m`.
midnight_bounds :
    (t : Time) (n m : ℕ) → n < m → (midnight t n ≤ℤ t) × (t <ℤ midnight t n +ℤ pos (m * day_ns))
unfolding midnight
midnight_bounds t n m h =
    let back = pos (floor_mod t day_ns + n * day_ns) in
    omega (
      arith,
      -ℤ_parts t back,
      +ℤ_parts (t -ℤ back) (pos (m * day_ns)),
      floor_mod-lt t day_ns (omega arith),
    )

-- A request always costs something.
pub cost_positive : (req : RequestContext) (cfg : AlgorithmConfig) → pos 0 <ℤ cost req cfg
unfolding cost
cost_positive req cfg = ground arith

-- The time of a request lies in its window: not before its start, and before its end. A window that
-- is given as a duration must be positive.
pub window_contains_now :
    (now : Time) (cfg : AlgorithmConfig)
    → pos 0 <ℤ window_duration cfg
    → (window_start now cfg ≤ℤ now) × (now <ℤ window_end now cfg)
unfolding window_start window_end add
window_contains_now now cfg h = ground (
  arith,
  midnight_bounds now (place_of now).offset (place_of now).days (offset-lt-days now),
  midnight_bounds now ((weekday now + 6) % 7) 7 (omega arith),
  truncate_bounds now (window_duration cfg) h,
)
