-- ===== src/Algorithm/FixedWindow/Exact.antt =====
-- fixedwindow.go on a store that no other client uses.
use Prim.Native.Nat.{◌<◌}
use rlaas.Base.{String, Bool, true, false, ◌≡◌, refl, ◌||◌, ◌&&◌, not, arith, if◌then◌else◌, ◌==◌}
use rlaas.Base.Int.{ltb_ℤ, ◌+ℤ◌}
use rlaas.Base.Int64.{Int64, InRange, ◌-w◌, +w_exact}
use rlaas.Base.Exec.{ok}
use rlaas.Model.{
  RequestContext, AlgorithmConfig, Policy, ActionType, Decision, allow, deny, delay, sample, drop,
  downgrade, drop_low_priority, shadow_only, other,
}
use rlaas.Base.Time.{Duration}
use rlaas.Algorithm.Common.{adjust, over_limit_decision}
use rlaas.Store.{CounterStore}
use rlaas.Store.Laws.{CounterLaws}
use rlaas.Algorithm.Budget.{Readings, max_retries}
use rlaas.Algorithm.Budget.Exact.{spend_exact}
use rlaas.Algorithm.FixedWindow.{budget, within, evaluate}

-- There is at least one attempt.
pub max_retries_pos : (cfg : AlgorithmConfig) → 0 < max_retries cfg
unfolding max_retries
max_retries_pos cfg = ground arith

-- The actions for which a request over the limit is let through all the same.
unfoldable pub lets_through : ActionType → Bool
lets_through delay = true
lets_through downgrade = true
lets_through shadow_only = true
lets_through _ = false

-- What an action makes of a decision that does not let the request through.
adjust-allowed :
    (a : ActionType) (policy : Policy) (retry_after : Duration) (d : Decision)
    → d.allowed ≡ false
    → (adjust a policy retry_after d).allowed ≡ lets_through a
unfolding adjust lets_through
adjust-allowed allow policy r d h = h
adjust-allowed deny policy r d h = h
adjust-allowed delay policy r d h = refl
adjust-allowed sample policy r d h = h
adjust-allowed drop policy r d h = h
adjust-allowed downgrade policy r d h = refl
adjust-allowed drop_low_priority policy r d h = h
adjust-allowed shadow_only policy r d h = refl
adjust-allowed (other name) policy r d h = h

exceeded-allowed :
    (t : Readings) (policy : Policy) (req : RequestContext) (key : String)
    → (budget t policy req key).exceeded.allowed ≡ lets_through policy.action
unfolding budget over_limit_decision
exceeded-allowed t policy req key = adjust-allowed policy.action policy _ _ refl

granted-allowed :
    (t : Readings) (policy : Policy) (req : RequestContext) (key : String) (n : Int64)
    → ((budget t policy req key).granted n).allowed ≡ true
unfolding budget within
granted-allowed t policy req key n = refl

either-allowed :
    (over lets : Bool) (x y : Decision)
    → x.allowed ≡ lets
    → y.allowed ≡ true
    → (if over then x else y).allowed ≡ (not over || lets)
either-allowed true lets x y h k = h
either-allowed false lets x y h k = k

module _ {S : Type 0} (c : CounterStore S) (value : S → String → Int64)
    (laws : CounterLaws c value) where
  -- While the window's count plus the cost fits an `int64`: if the sum is within the limit, the answer is the granted
  -- decision with the limit less the sum as what remains, and else the policy's decision for a request over
  -- the limit. The request is let through exactly if the sum is within the limit or the policy's action is to
  -- delay, to downgrade or only to shadow. If the sum is within the limit it is the new count, and else
  -- every counter stays as it is; no other counter ever changes.
  pub evaluate_exact :
      (t : Readings) (policy : Policy) (req : RequestContext) (key : String) (s : S)
      → let b = budget t policy req key in
        let total = value s b.key +ℤ b.cost in
        let over = ltb_ℤ b.limit total in
        InRange total
        → (d : Decision) × ((evaluate c t policy req key s).0 ≡ ok d)
          × (d ≡ (if over then b.exceeded else b.granted (b.limit -w total)))
          × (d.allowed ≡ (not over || lets_through policy.action))
          × ((j : String)
              → value (evaluate c t policy req key s).1 j
                ≡ (if not over && (b.key == j) then total else value s j))
  unfolding evaluate
  evaluate_exact t policy req key s h =
      let b = budget t policy req key in
      let total = value s b.key +ℤ b.cost in
      let (answered, counted) =
        spend_exact c value laws b (max_retries policy.algorithm) s
          (max_retries_pos policy.algorithm) in
      let exact = +w_exact (value s b.key) b.cost h in
      (
        if ltb_ℤ b.limit total then b.exceeded else b.granted (b.limit -w total),
        rw (← exact) answered,
        refl,
        either-allowed (ltb_ℤ b.limit total) (lets_through policy.action) b.exceeded
            (b.granted (b.limit -w total)) (exceeded-allowed t policy req key)
            (granted-allowed t policy req key (b.limit -w total)),
        rw (← exact) counted,
      )
