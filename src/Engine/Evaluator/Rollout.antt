-- ===== src/Engine/Evaluator/Rollout.antt =====
-- The rollout of engine.go.
use rlaas.Base.{◌≡◌, refl, true, arith}
use rlaas.Base.Int.{◌≤ℤ◌}
use rlaas.Base.Int64.{Int64}
use rlaas.Model.{RequestContext, Policy}
use rlaas.Engine.Evaluator.{rollout_bucket, is_in_rollout}

-- The bucket does not depend on the percentage.
bucket-percent :
    (policy : Policy) (req : RequestContext) (more : Int64)
    → rollout_bucket (record policy { rollout_percent = more }) req ≡ rollout_bucket policy req
unfolding rollout_bucket
bucket-percent policy req more = refl

-- A request that takes part in a rollout takes part in the same policy's rollout at any higher
-- percentage.
pub rollout_monotone :
    (policy : Policy) (req : RequestContext) (more : Int64)
    → policy.rollout_percent ≤ℤ more
    → is_in_rollout policy req ≡ true
    → is_in_rollout (record policy { rollout_percent = more }) req ≡ true
unfolding is_in_rollout
rollout_monotone policy req more h inside = ground (arith, bucket-percent policy req more)
