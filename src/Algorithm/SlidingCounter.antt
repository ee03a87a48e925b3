-- ===== src/Algorithm/SlidingCounter.antt =====
-- internal/algorithm/slidingcounter/slidingcounter.go.
use Prim.Native.Nat.{ℕ, zero, suc}
use rlaas.Base.{String, true, ◌<>◌, format_int, if◌then◌else◌}
use rlaas.Base.Int.{pos, leb_ℤ}
use rlaas.Base.Int64.{Int64, ◌+w◌, ◌-w◌, ◌*w◌}
use rlaas.Base.Time.{Time, Duration, minute, add, sub, unix_nano}
use rlaas.Base.Exec.{Exec, pure, ◌>>=◌}
use rlaas.Base.Float.{FloatOps}
use rlaas.Model.{Float64, RequestContext, AlgorithmConfig, Decision, Policy, zero_decision, allow}
use rlaas.Store.{CounterStore}
use rlaas.Algorithm.Common.{window_duration, window_start, cost, over_limit_decision}
use rlaas.Algorithm.Budget.{Readings, max_retries}

-- The window, one minute if it is not positive.
unfoldable pub window_of : AlgorithmConfig → Duration
window_of cfg = if leb_ℤ (window_duration cfg) (pos 0) then minute else window_duration cfg

pub window_key : String → Time → String
window_key key start = key <> ":swc:" <> format_int (unix_nano start)

module _ (fl : FloatOps) where
  -- The limit as a float, 1 if it is not positive.
  limit_of : AlgorithmConfig → Float64
  limit_of cfg =
      let limit = fl.of_int cfg.limit in
      if fl.le limit (fl.of_int (pos 0)) then fl.of_int (pos 1) else limit

  -- The share of the previous window that is still in view.
  unfoldable pub weight : AlgorithmConfig → Time → Float64
  weight cfg now =
      let elapsed = sub now (window_start now cfg) in
      let share = fl.over (fl.of_int (window_of cfg -w elapsed)) (fl.of_int (window_of cfg)) in
      if fl.lt share (fl.of_int (pos 0)) then fl.of_int (pos 0) else share

  -- The estimate of the traffic with the request's cost.
  unfoldable pub estimate : AlgorithmConfig → Time → Int64 → Int64 → Int64 → Float64
  unfolding weight
  estimate cfg now prev_count cur_count cost =
      fl.plus (fl.of_int (cur_count +w cost)) (fl.times (fl.of_int prev_count) (weight cfg now))

  within : Policy → Time → Float64 → Decision
  within policy cur_start estimated = record zero_decision {
    allowed = true;
    action = allow;
    reason = "within_sliding_window";
    remaining = fl.to_int (fl.minus (limit_of policy.algorithm) estimated);
    reset_at = add cur_start (window_of policy.algorithm);
  }

  -- A decision against the request, with the wait until the window's end.
  denied : Readings → Policy → String → Decision
  denied t policy reason =
      let cur_start = window_start t.now policy.algorithm in
      over_limit_decision t.wall policy (sub (add cur_start (window_of policy.algorithm)) t.now)
        (pos 0) reason

  unfoldable pub attempts :
      {S : Type 0}
      → CounterStore S
      → Readings
      → Policy
      → RequestContext
      → String
      → Int64
      → ℕ
      → Exec S Decision
  unfolding estimate within denied limit_of
  attempts c t policy req key prev_count zero = pure (denied t policy "sliding_window_contention")
  attempts c t policy req key prev_count (suc n) = do
    let cur_start = window_start t.now policy.algorithm
    cur_count ← c.get (window_key key cur_start)
    let price = cost req policy.algorithm
    let estimated = estimate policy.algorithm t.now prev_count cur_count price
    if fl.lt (limit_of policy.algorithm) estimated
        then pure (denied t policy "sliding_window_limit_exceeded")
        else do
          swapped ←
              c.compare_and_swap (window_key key cur_start) cur_count (cur_count +w price)
                (pos 2 *w window_of policy.algorithm)
          if swapped
              then pure (within policy cur_start estimated)
              else attempts c t policy req key prev_count n

  -- The previous window starts one window before the current one.
  unfoldable pub evaluate :
      {S : Type 0} → CounterStore S → Readings → Policy → RequestContext → String → Exec S Decision
  unfolding attempts window_key
  evaluate c t policy req key = do
    let cur_start = window_start t.now policy.algorithm
    prev_count ← c.get (window_key key (add cur_start (pos 0 -w window_of policy.algorithm)))
    attempts c t policy req key prev_count (max_retries policy.algorithm)
