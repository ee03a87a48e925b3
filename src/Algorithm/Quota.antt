-- ===== src/Algorithm/Quota.antt =====
-- internal/algorithm/quota/quota.go.
pub mod Interference
use rlaas.Base.{String, true, ◌<>◌, ◌==◌, format_int, if◌then◌else◌}
use rlaas.Base.Int.{pos}
use rlaas.Base.Int64.{Int64}
use rlaas.Base.Time.{Time, sub, unix_nano}
use rlaas.Base.Exec.{Exec}
use rlaas.Model.{
  RequestContext, AlgorithmConfig, Decision, Policy, zero_decision, zero_config, allow,
}
use rlaas.Store.{CounterStore}
use rlaas.Algorithm.Common.{window_duration, window_start, window_end, cost, over_limit_decision}
use rlaas.Algorithm.Budget.{Readings, Budget, max_retries, limit_or_one, spend}

-- The configuration whose window is the quota's period.
pub period_config : AlgorithmConfig → AlgorithmConfig
period_config cfg = record zero_config {
  window = if cfg.quota_period == "" then "day" else cfg.quota_period;
}

pub bucket_key : String → Time → String
bucket_key key start = key <> ":quota:" <> format_int (unix_nano start)

pub within : Time → Int64 → Decision
within bucket_end remaining = record zero_decision {
  allowed = true;
  action = allow;
  reason = "within_quota";
  remaining = remaining;
  reset_at = bucket_end;
}

unfoldable pub budget : Readings → Policy → RequestContext → String → Budget
budget t policy req key =
    let period = period_config policy.algorithm in
    let end = window_end t.now period in
    record {
      key = bucket_key key (window_start t.now period);
      limit = limit_or_one policy.algorithm.limit;
      cost = cost req policy.algorithm;
      ttl = window_duration period;
      granted = within end;
      exceeded = over_limit_decision t.wall policy (sub end t.now) (pos 0) "quota_exceeded";
      contention = over_limit_decision t.wall policy (sub end t.now) (pos 0) "quota_contention";
    }

unfoldable pub evaluate :
    {S : Type 0} → CounterStore S → Readings → Policy → RequestContext → String → Exec S Decision
evaluate c t policy req key = spend c (budget t policy req key) (max_retries policy.algorithm)
