-- ===== src/Algorithm/Common.antt =====
-- internal/algorithm/common/common.go: windows, request costs and the decision of a denied request.
pub mod Windows
use rlaas.Base.{String, Bool, true, false, some, none, ◌==◌, if◌then◌else◌}
use rlaas.Base.Int.{ℤ, pos, leb_ℤ, ltb_ℤ}
use rlaas.Base.Int64.{Int64}
use rlaas.Base.Time.{Time, Duration, minute, day_ns, add, truncate}
use rlaas.Base.Calendar.{place_of, weekday, midnight}
use rlaas.Base.ParseDuration.{parse_duration}
use rlaas.Model.{
  RequestContext, AlgorithmConfig, ActionType, Decision, Policy, zero_decision, delay, sample,
  downgrade, shadow_only,
}
use Prim.Native.Nat.{◌+◌, ◌*◌, ◌%◌}

window_alias : String → Duration
window_alias w =
    if w == "day"
    then pos day_ns
    else if w == "week"
    then pos (7 * day_ns)
    else if w == "month"
    then pos (30 * day_ns)
    else minute

unfoldable pub window_duration : AlgorithmConfig → Duration
unfolding window_alias
window_duration cfg =
    if cfg.window == ""
    then minute
    else elim (parse_duration cfg.window) [ some d ↦ d | none ↦ window_alias cfg.window ]

unfoldable pub window_start : Time → AlgorithmConfig → Time
window_start now cfg =
    if cfg.window == "month"
    then midnight now (place_of now).offset
    else if cfg.window == "week"
    then midnight now ((weekday now + 6) % 7)
    else truncate now (window_duration cfg)

-- `AddDate(0, 1, 0)` of the first of a month goes on by the days of that month.
unfoldable pub window_end : Time → AlgorithmConfig → Time
window_end now cfg =
    if cfg.window == "month"
    then add (window_start now cfg) (pos ((place_of now).days * day_ns))
    else if cfg.window == "week"
    then add (window_start now cfg) (pos (7 * day_ns))
    else add (window_start now cfg) (window_duration cfg)

unfoldable pub cost : RequestContext → AlgorithmConfig → Int64
cost req cfg =
    if ltb_ℤ (pos 0) cfg.cost_per_request
    then cfg.cost_per_request
    else if ltb_ℤ (pos 0) req.quantity
    then req.quantity
    else pos 1

-- The `switch` on the policy's action.
unfoldable pub adjust : ActionType → Policy → Duration → Decision → Decision
adjust delay policy retry_after d = record d { allowed = true; delay_for = retry_after }
adjust sample policy retry_after d = record d { sample_rate = policy.algorithm.sample_rate }
adjust downgrade policy retry_after d = record d { allowed = true }
adjust shadow_only policy retry_after d = record d { allowed = true; shadow_mode = true }
adjust _ policy retry_after d = d

-- `wall` is what `time.Now()` reads here.
unfoldable pub over_limit_decision : Time → Policy → Duration → Int64 → String → Decision
unfolding adjust
over_limit_decision wall policy retry_after remaining reason =
    adjust policy.action policy retry_after (record zero_decision {
      action = policy.action;
      reason = reason;
      remaining = remaining;
      retry_after = retry_after;
      reset_at = add wall retry_after;
    })
