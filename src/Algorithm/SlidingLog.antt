-- ===== src/Algorithm/SlidingLog.antt =====
-- internal/algorithm/slidinglog/slidinglog.go.
use Prim.Native.Nat.{ℕ, zero, suc}
use rlaas.Base.{String, Bool, true, none, some, ◌<>◌, if◌then◌else◌}
use rlaas.Base.Int.{pos, pos_part, leb_ℤ, ltb_ℤ}
use rlaas.Base.Int64.{Int64, ◌+w◌, ◌-w◌}
use rlaas.Base.Time.{Time, Duration, second, add}
use rlaas.Base.Exec.{Exec, pure, ◌>>=◌, ◌>>◌}
use rlaas.Base.Float.{FloatOps}
use rlaas.Model.{RequestContext, Decision, Policy, zero_decision, allow}
use rlaas.Store.{CounterStore}
use rlaas.Algorithm.Common.{window_duration, cost, over_limit_decision}
use rlaas.Algorithm.Budget.{Readings, limit_or_one}

unfoldable pub compute_retry_after : FloatOps → Duration → Int64 → Int64 → Int64 → Duration
compute_retry_after fl window count cost limit =
    let wait = fl.to_int (
      fl.over (fl.times (fl.of_int window) (fl.of_int (count +w cost -w limit)))
        (fl.of_int count)) in
    if leb_ℤ count (pos 0) then window else if leb_ℤ wait (pos 0) then second else wait

pub log_key : String → String
log_key key = key <> ":swl"

-- The decisions of a request that is denied, and of one that is let through.
pub exceeded : FloatOps → Readings → Policy → RequestContext → Int64 → Decision
exceeded fl t policy req count =
    let limit = limit_or_one policy.algorithm.limit in
    over_limit_decision t.wall policy
      (compute_retry_after fl (window_duration policy.algorithm) count (cost req policy.algorithm)
        limit)
      (limit -w count) "sliding_log_limit_exceeded"

pub within : Readings → Policy → RequestContext → Int64 → Decision
within t policy req count = record zero_decision {
  allowed = true;
  action = allow;
  reason = "within_sliding_log";
  remaining = limit_or_one policy.algorithm.limit -w (count +w cost req policy.algorithm);
  reset_at = add t.now (window_duration policy.algorithm);
}

-- The loop that records one timestamp for each unit of the cost.
unfoldable pub record_cost :
    {S : Type 0} → CounterStore S → String → Time → Duration → ℕ → Exec S (Unit {0})
record_cost c key now window zero = pure tt
record_cost c key now window (suc n) = do
  c.add_timestamp key now window
  record_cost c key now window n

module _ {S : Type 0} (fl : FloatOps) (c : CounterStore S) (t : Readings) (policy : Policy)
    (req : RequestContext) where
  -- For a store that checks and adds in one call.
  evaluate_atomic :
      (String → Time → Int64 → Int64 → Time → Duration → Exec S (Int64 × Bool))
      → String
      → Exec S Decision
  unfolding exceeded within log_key
  evaluate_atomic check_and_add key = do
    let window = window_duration policy.algorithm
    (count, allowed) ←
        check_and_add (log_key key) (add t.now (pos 0 -w window))
          (limit_or_one policy.algorithm.limit) (cost req policy.algorithm) t.now window
    pure (if allowed then within t policy req count else exceeded fl t policy req count)

  -- The fallback: trim, count, and add in separate calls.
  evaluate_stepwise : String → Exec S Decision
  unfolding exceeded within log_key record_cost
  evaluate_stepwise key = do
    let window = window_duration policy.algorithm
    let cutoff = add t.now (pos 0 -w window)
    c.trim_before (log_key key) cutoff
    count ← c.count_after (log_key key) cutoff
    if ltb_ℤ (limit_or_one policy.algorithm.limit) (count +w cost req policy.algorithm)
        then pure (exceeded fl t policy req count)
        else do
          record_cost c (log_key key) t.now window (pos_part (cost req policy.algorithm))
          pure (within t policy req count)

  unfoldable pub evaluate : String → Exec S Decision
  unfolding evaluate_atomic evaluate_stepwise
  evaluate key = elim c.atomic_timestamps [
    | some check_and_add ↦ evaluate_atomic check_and_add key
    | none ↦ evaluate_stepwise key
  ]
