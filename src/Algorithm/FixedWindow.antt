-- ===== src/Algorithm/FixedWindow.antt =====
-- internal/algorithm/fixedwindow/fixedwindow.go.
pub mod Exact
pub mod Overflow
pub mod Progress
use rlaas.Base.{String, true, ◌<>◌, format_int}
use rlaas.Base.Int.{pos}
use rlaas.Base.Int64.{Int64}
use rlaas.Base.Time.{Time, sub, unix_nano}
use rlaas.Base.Exec.{Exec}
use rlaas.Model.{RequestContext, AlgorithmConfig, Decision, Policy, zero_decision, allow}
use rlaas.Store.{CounterStore}
use rlaas.Algorithm.Common.{window_duration, window_start, window_end, cost, over_limit_decision}
use rlaas.Algorithm.Budget.{Readings, Budget, max_retries, limit_or_one, spend}

-- The key of the counter of the window that a time lies in.
pub window_key : String → Time → String
window_key key start = key <> ":" <> format_int (unix_nano start)

-- The decision of a request that is let through.
unfoldable pub within : Time → Int64 → Decision
within window_end remaining = record zero_decision {
  allowed = true;
  action = allow;
  reason = "within_fixed_window";
  remaining = remaining;
  reset_at = window_end;
}

unfoldable pub budget : Readings → Policy → RequestContext → String → Budget
budget t policy req key =
    let end = window_end t.now policy.algorithm in
    record {
      key = window_key key (window_start t.now policy.algorithm);
      limit = limit_or_one policy.algorithm.limit;
      cost = cost req policy.algorithm;
      ttl = window_duration policy.algorithm;
      granted = within end;
      exceeded =
          over_limit_decision t.wall policy (sub end t.now) (pos 0) "fixed_window_limit_exceeded";
      contention =
          over_limit_decision t.wall policy (sub end t.now) (pos 0) "fixed_window_contention";
    }

unfoldable pub evaluate :
    {S : Type 0} → CounterStore S → Readings → Policy → RequestContext → String → Exec S Decision
evaluate c t policy req key = spend c (budget t policy req key) (max_retries policy.algorithm)
