-- ===== src/Tests/Breakers.antt =====
-- The circuit breaker at concrete calls.
use rlaas.Base.{List, [], ◌∷◌, true, ◌≡◌, refl, arith, leb, if◌then◌else◌}
use rlaas.Base.Lists.{length}
use rlaas.Base.Int.{pos, ◌+ℤ◌, ◌-ℤ◌}
use rlaas.Base.Int64.{◌+w◌, ◌-w◌, wrap64}
use rlaas.Base.Time.{Time, unix_nano}
use rlaas.Store.Breaker.{open_, closed, half_open, new_breaker, allow_call, record_failure}
use rlaas.Store.Breaker.Trips.{Event, asks, fails, after_events, half_open_admits_all}
use rlaas.Store.Breaker.Cycle.{failures_at, trips_at_threshold}
use rlaas.Tests.Samples.{noon}

abbrev later : Time
later = pos 200000000000

-- Two failures open the breaker, and a call after the wait makes it half-open.
abbrev events : List Event
events = fails noon ∷ fails noon ∷ asks later ∷ []

events_probe :
    (after_events events (new_breaker (pos 2) (pos 1000000000) (pos 1))).state ≡ half_open
unfolding after_events allow_call record_failure new_breaker ◌+w◌ wrap64 ◌+ℤ◌ ◌-w◌ ◌-ℤ◌ unix_nano
events_probe = refl

half_open_admits_all_example :
    (allow_call later (after_events events (new_breaker (pos 2) (pos 1000000000) (pos 1)))).0 ≡ true
half_open_admits_all_example =
    half_open_admits_all (pos 2) (pos 1000000000) (pos 1) events later
      (omega arith, record { below = omega arith; above = omega arith })
      (omega arith, record { below = omega arith; above = omega arith }) events_probe

trips_at_threshold_example :
    (after_events
      (failures_at (noon ∷ later ∷ []))
      (new_breaker (pos 3) (pos 1000000000) (pos 1))).state
    ≡ (if leb 3 (length (noon ∷ later ∷ [])) then open_ else closed)
trips_at_threshold_example =
    trips_at_threshold 3 (pos 1000000000) (pos 1) (noon ∷ later ∷ []) (omega arith) (omega arith)
