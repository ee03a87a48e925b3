-- ===== src/Algorithm/TokenBucket.antt =====
-- internal/algorithm/tokenbucket/tokenbucket.go.
use Prim.Native.Nat.{ℕ, zero, suc, ◌*◌}
use rlaas.Base.{String, true, ◌<>◌, if◌then◌else◌}
use rlaas.Base.Int.{pos, leb_ℤ, ◌=ℤ◌}
use rlaas.Base.Int64.{Int64}
use rlaas.Base.Time.{Time, second, hour_ns, unix_nano}
use rlaas.Base.Exec.{Exec, pure, ◌>>=◌, ◌>>◌}
use rlaas.Base.Float.{FloatOps, seconds}
use rlaas.Model.{Float64, RequestContext, AlgorithmConfig, Decision, Policy, zero_decision, allow}
use rlaas.Store.{CounterStore}
use rlaas.Algorithm.Common.{window_duration, cost, over_limit_decision}
use rlaas.Algorithm.Budget.{Readings, max_retries, limit_or_one}
use rlaas.Algorithm.Bucket.{last_or_now, elapsed_seconds, store_time}

-- `Burst`, else `Limit`, else 1.
unfoldable pub capacity : AlgorithmConfig → Int64
unfolding limit_or_one
capacity cfg = if leb_ℤ cfg.burst (pos 0) then limit_or_one cfg.limit else cfg.burst

pub tokens_key : String → String
tokens_key key = key <> ":tb:tokens"

pub time_key : String → String
time_key key = key <> ":tb:ts"

module _ (fl : FloatOps) where
  -- The configured rate, else the limit over the window, else 1.
  unfoldable pub refill_rate : AlgorithmConfig → Float64
  refill_rate cfg =
      let zero' = fl.of_int (pos 0) in
      let derived = fl.over (fl.of_int cfg.limit) (seconds fl (window_duration cfg)) in
      if fl.le cfg.refill_rate zero'
      then (if fl.le derived zero' then fl.of_int (pos 1) else derived)
      else cfg.refill_rate

  -- The tokens at a time: a bucket with no time is full.
  unfoldable pub refilled : AlgorithmConfig → Time → Int64 → Int64 → Float64
  unfolding last_or_now elapsed_seconds
  refilled cfg now old_milli last_nanos =
      let full = fl.of_int (capacity cfg) in
      let stored =
        if last_nanos =ℤ pos 0
        then full
        else fl.over (fl.of_int old_milli) (fl.of_int (pos 1000)) in
      let elapsed = elapsed_seconds fl now (last_or_now now last_nanos) in
      fl.min full (fl.plus stored (fl.times elapsed (refill_rate cfg)))

  depleted : Readings → Policy → RequestContext → Float64 → Decision
  depleted t policy req tokens =
      let missing = fl.minus (fl.of_int (cost req policy.algorithm)) tokens in
      let retry =
        fl.to_int (fl.times (fl.over missing (refill_rate policy.algorithm)) (fl.of_int second)) in
      over_limit_decision t.wall policy retry (fl.to_int tokens) "token_bucket_depleted"

  available : Float64 → Decision
  available left = record zero_decision {
    allowed = true;
    action = allow;
    reason = "token_available";
    remaining = fl.to_int left;
  }

  milli : Float64 → Int64
  milli x = fl.to_int (fl.round (fl.times x (fl.of_int (pos 1000))))

  unfoldable pub attempts :
      {S : Type 0}
      → CounterStore S
      → Readings
      → Policy
      → RequestContext
      → String
      → ℕ
      → Exec S Decision
  unfolding refilled depleted available milli store_time
  attempts c t policy req key zero =
      pure (over_limit_decision t.wall policy (pos 10000000) (pos 0) "token_bucket_contention")
  attempts c t policy req key (suc n) = do
    old_milli ← c.get (tokens_key key)
    last_nanos ← c.get (time_key key)
    let price = fl.of_int (cost req policy.algorithm)
    let tokens = refilled policy.algorithm t.now old_milli last_nanos
    if fl.lt tokens price then pure (depleted t policy req tokens) else do
      let left = fl.minus tokens price
      swapped ← c.compare_and_swap (tokens_key key) old_milli (milli left) (pos (2 * hour_ns))
      if swapped
          then (do
            store_time c (time_key key) (unix_nano t.now) (pos (2 * hour_ns)) 3
            pure (available left))
          else attempts c t policy req key n

  unfoldable pub evaluate :
      {S : Type 0} → CounterStore S → Readings → Policy → RequestContext → String → Exec S Decision
  unfolding attempts
  evaluate c t policy req key = attempts c t policy req key (max_retries policy.algorithm)
