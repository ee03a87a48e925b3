-- ===== src/Algorithm/Concurrency.antt =====
-- internal/algorithm/concurrency/concurrency.go.
use rlaas.Base.{String, Bool, true, ◌<>◌, if◌then◌else◌}
use rlaas.Base.Int.{pos, leb_ℤ, ltb_ℤ}
use rlaas.Base.Int64.{Int64, ◌-w◌, ◌*w◌}
use rlaas.Base.Time.{Duration, second, minute_ns}
use rlaas.Base.Exec.{Exec, pure, ◌>>=◌}
use rlaas.Model.{RequestContext, AlgorithmConfig, Decision, Policy, zero_decision, allow}
use rlaas.Store.{CounterStore}
use rlaas.Algorithm.Common.{over_limit_decision}
use rlaas.Algorithm.Budget.{Readings, limit_or_one}
use Prim.Native.Nat.{◌*◌}

-- `MaxConcurrency`, else `Limit`, else 1.
unfoldable pub slots : AlgorithmConfig → Int64
unfolding limit_or_one
slots cfg =
    if leb_ℤ cfg.max_concurrency (pos 0) then limit_or_one cfg.limit else cfg.max_concurrency

-- The lease's time to live, 2 minutes unless the policy says otherwise.
unfoldable pub lease_duration : AlgorithmConfig → Duration
lease_duration cfg =
    if ltb_ℤ (pos 0) cfg.lease_ttl then cfg.lease_ttl *w second else pos (2 * minute_ns)

pub lease_key : String → String
lease_key key = key <> ":concurrency"

-- The decision on the answer of `AcquireLease`.
pub decide : Readings → Policy → Bool × Int64 → Decision
decide t policy (acquired, current) =
    if acquired
    then record zero_decision {
      allowed = true;
      action = allow;
      reason = "concurrency_slot_acquired";
      remaining = slots policy.algorithm -w current;
    }
    else over_limit_decision t.wall policy (pos 100000000) (pos 0) "concurrency_limit_exceeded"

unfoldable pub evaluate :
    {S : Type 0} → CounterStore S → Readings → Policy → RequestContext → String → Exec S Decision
unfolding decide lease_key
evaluate c t policy req key = do
  answer ←
      c.acquire_lease (lease_key key) (slots policy.algorithm) (lease_duration policy.algorithm)
  pure (decide t policy answer)

unfoldable pub release : {S : Type 0} → CounterStore S → String → Exec S (Unit {0})
unfolding lease_key
release c key = c.release_lease (lease_key key)
