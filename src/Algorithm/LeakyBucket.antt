-- ===== src/Algorithm/LeakyBucket.antt =====
-- internal/algorithm/leakybucket/leakybucket.go.
use Prim.Native.Nat.{ℕ, zero, suc, ◌*◌}
use rlaas.Base.{String, true, ◌<>◌, if◌then◌else◌}
use rlaas.Base.Int.{pos, ltb_ℤ}
use rlaas.Base.Int64.{Int64, ◌*w◌}
use rlaas.Base.Time.{Time, Duration, second, hour_ns, unix_nano}
use rlaas.Base.Exec.{Exec, pure, ◌>>=◌, ◌>>◌}
use rlaas.Base.Float.{FloatOps}
use rlaas.Model.{Float64, RequestContext, AlgorithmConfig, Decision, Policy, zero_decision, allow}
use rlaas.Store.{CounterStore}
use rlaas.Algorithm.Common.{window_duration, cost, over_limit_decision}
use rlaas.Algorithm.Budget.{Readings, max_retries, limit_or_one}
use rlaas.Algorithm.Bucket.{last_or_now, elapsed_seconds, store_time}

pub level_key : String → String
level_key key = key <> ":lb:level"

pub time_key : String → String
time_key key = key <> ":lb:ts"

-- Twice the window, two hours at least.
unfoldable pub level_ttl : AlgorithmConfig → Duration
level_ttl cfg =
    let ttl = pos 2 *w window_duration cfg in
    if ltb_ℤ ttl (pos (2 * hour_ns)) then pos (2 * hour_ns) else ttl

module _ (fl : FloatOps) where
  unfoldable pub leak_rate : AlgorithmConfig → Float64
  leak_rate cfg =
      if fl.le cfg.leak_rate (fl.of_int (pos 0)) then fl.of_int (pos 1) else cfg.leak_rate

  -- The level at a time, with the cost of the request on top.
  unfoldable pub level_with : AlgorithmConfig → Time → Int64 → Int64 → Int64 → Float64
  unfolding last_or_now elapsed_seconds
  level_with cfg now old_milli last_nanos cost =
      let stored = fl.over (fl.of_int old_milli) (fl.of_int (pos 1000)) in
      let elapsed = elapsed_seconds fl now (last_or_now now last_nanos) in
      let drained =
        fl.max (fl.of_int (pos 0)) (fl.minus stored (fl.times elapsed (leak_rate cfg))) in
      fl.plus drained (fl.of_int cost)

  overflow : Readings → Policy → Float64 → Decision
  overflow t policy level =
      let excess = fl.minus level (fl.of_int (limit_or_one policy.algorithm.limit)) in
      let retry =
        fl.to_int (fl.times (fl.over excess (leak_rate policy.algorithm)) (fl.of_int second)) in
      over_limit_decision t.wall policy retry (pos 0) "leaky_bucket_overflow"

  within : Policy → Float64 → Decision
  within policy level = record zero_decision {
    allowed = true;
    action = allow;
    reason = "within_leaky_bucket";
    remaining = fl.to_int (fl.minus (fl.of_int (limit_or_one policy.algorithm.limit)) level);
  }

  milli : Float64 → Int64
  milli x = fl.to_int (fl.round (fl.times x (fl.of_int (pos 1000))))

  unfoldable pub attempts :
      {S : Type 0}
      → CounterStore S
      → Readings
      → Policy
      → RequestContext
      → String
      → ℕ
      → Exec S Decision
  unfolding level_with overflow within milli store_time
  attempts c t policy req key zero =
      pure (over_limit_decision t.wall policy (pos 10000000) (pos 0) "leaky_bucket_contention")
  attempts c t policy req key (suc n) = do
    old_milli ← c.get (level_key key)
    last_nanos ← c.get (time_key key)
    let level = level_with policy.algorithm t.now old_milli last_nanos (cost req policy.algorithm)
    if fl.lt (fl.of_int (limit_or_one policy.algorithm.limit)) level
        then pure (overflow t policy level)
        else do
          let ttl = level_ttl policy.algorithm
          swapped ← c.compare_and_swap (level_key key) old_milli (milli level) ttl
          if swapped
              then (do
                store_time c (time_key key) (unix_nano t.now) ttl 3
                pure (within policy level))
              else attempts c t policy req key n

  unfoldable pub evaluate :
      {S : Type 0} → CounterStore S → Readings → Policy → RequestContext → String → Exec S Decision
  unfolding attempts
  evaluate c t policy req key = attempts c t policy req key (max_retries policy.algorithm)
