-- ===== src/Tests/Limits.antt =====
-- The limits of the algorithms at concrete requests.
use Prim.Native.Nat.{◌^◌, ◌-◌, ◌+◌}
use rlaas.Base.{String, [], ◌∷◌, some, ◌≡◌, refl, ◌||◌, ◌&&◌, not, arith, if◌then◌else◌, ◌==◌}
use rlaas.Base.Int.{pos, negsuc, ltb_ℤ, ◌+ℤ◌, ◌≤ℤ◌, ◌<ℤ◌}
use rlaas.Base.Int64.{InRange, ◌-w◌}
use rlaas.Model.{RequestContext, Decision}
use rlaas.Base.Exec.{ok}
use rlaas.Store.Memory.Node.{Node, memory}
use rlaas.Store.Memory.Refinement.{counter, counter_in, memory-CounterLaws}
use rlaas.Store.World.{shared}
use rlaas.Algorithm.Budget.Interference.{Within, Settled}
use rlaas.Algorithm.FixedWindow.Exact.{lets_through, evaluate_exact}
use rlaas.Algorithm.FixedWindow.Progress.{evaluate_settles}
use rlaas.Algorithm.FixedWindow.Overflow.{evaluate_overflow}
use rlaas.Algorithm.Quota.Interference.{evaluate_keeps_limit}
use rlaas.Algorithm.Common.Windows.{window_contains_now}
use rlaas.Algorithm.Common.{window_duration, window_start, window_end, cost}
use rlaas.Algorithm.FixedWindow
use rlaas.Algorithm.Quota
use rlaas.Store.Memory.{new, new_sharded, expired, empty_shard}
use rlaas.Base.Time.{is_zero}
use rlaas.Algorithm.Budget.{Budget, limit_or_one, max_retries}
use rlaas.Tests.Samples.{noon, readings, node, acme_request, acme_policy, per_minute}

-- A new store has every counter at 0.
fresh : (key : String) → counter node key ≡ pos 0
unfolding counter counter_in new new_sharded expired is_zero
fresh key = refl

-- Three units fit into the window, whose key is left as it is.
three_fit :
    (key : String)
    → InRange (counter node key +ℤ (FixedWindow.budget readings acme_policy acme_request "k").cost)
unfolding FixedWindow.budget cost ◌+ℤ◌
three_fit key = rw (fresh key) (omega arith)

abbrev budget : Budget
budget = FixedWindow.budget readings acme_policy acme_request "k"

evaluate_exact_example :
    (d : Decision) × ((FixedWindow.evaluate memory readings acme_policy acme_request "k" node).0
      ≡ ok d)
    × (d ≡ (
        if ltb_ℤ budget.limit (counter node budget.key +ℤ budget.cost)
        then budget.exceeded
        else budget.granted (budget.limit -w (counter node budget.key +ℤ budget.cost))))
    × (d.allowed ≡ (
        not (ltb_ℤ budget.limit (counter node budget.key +ℤ budget.cost))
        || lets_through acme_policy.action))
    × ((j : String)
        → counter (FixedWindow.evaluate memory readings acme_policy acme_request "k" node).1 j ≡ (
            if not (ltb_ℤ budget.limit (counter node budget.key +ℤ budget.cost))
              && (budget.key == j)
            then counter node budget.key +ℤ budget.cost
            else counter node j))
evaluate_exact_example =
    evaluate_exact memory counter memory-CounterLaws readings acme_policy acme_request "k" node
      (three_fit budget.key)

-- Another client starts the store again before the first call, and does nothing before the second.
quota_room :
    let b = Quota.budget readings acme_policy acme_request "k" in InRange (b.limit +ℤ b.cost)
unfolding Quota.budget limit_or_one cost ◌+ℤ◌
quota_room = omega arith

quota_fresh : Within counter (Quota.budget readings acme_policy acme_request "k") node
unfolding Quota.budget limit_or_one
quota_fresh = rw (fresh (Quota.budget readings acme_policy acme_request "k").key) (omega arith)

evaluate_keeps_limit_example :
    Within counter
      (Quota.budget readings acme_policy acme_request "k")
      (Quota.evaluate
        (shared memory)
        readings
        acme_policy
        acme_request
        "k"
        (record { state = node; pending = (λ s. node) ∷ (λ s. s) ∷ [] })).1.state
evaluate_keeps_limit_example =
    evaluate_keeps_limit memory counter memory-CounterLaws readings acme_policy acme_request "k"
      node ((λ s. node) ∷ (λ s. s) ∷ []) quota_room quota_fresh
      ((λ s h. quota_fresh), ((λ s h. h), tt))

evaluate_settles_example :
    Settled budget
      (FixedWindow.evaluate
        (shared memory)
        readings
        acme_policy
        acme_request
        "k"
        (record { state = node; pending = (λ s. s) ∷ [] })).0
evaluate_settles_example =
    evaluate_settles memory counter memory-CounterLaws readings acme_policy acme_request "k" node
      ((λ s. s) ∷ []) (unfold max_retries in omega arith)

window_contains_now_example :
    (window_start noon per_minute ≤ℤ noon) × (noon <ℤ window_end noon per_minute)
window_contains_now_example =
    window_contains_now noon per_minute (unfold window_duration in omega arith)

-- A store whose counters are all at 5.
abbrev used_node : Node
used_node = record {
  store = record {
    count = 64;
    shards =
        λ i. record empty_shard { values = λ k. some (record { value = pos 5; expiry = pos 0 }) };
  };
  now = noon;
}

used : (key : String) → counter used_node key ≡ pos 5
unfolding counter counter_in expired is_zero
used key = refl

-- A request for the largest quantity.
abbrev huge_request : RequestContext
huge_request = record acme_request { quantity = pos (2 ^ 63 - 1) }

abbrev huge_budget : Budget
huge_budget = FixedWindow.budget readings acme_policy huge_request "k"

huge_cost : huge_budget.cost ≡ pos (2 ^ 63 - 1)
unfolding FixedWindow.budget cost
huge_cost = refl

evaluate_overflow_example :
    ((FixedWindow.evaluate memory readings acme_policy huge_request "k" used_node).0
      ≡ ok (huge_budget.granted (huge_budget.limit -w negsuc (2 ^ 64 - 1 - (5 + (2 ^ 63 - 1))))))
    × (counter
          (FixedWindow.evaluate memory readings acme_policy huge_request "k" used_node).1
          huge_budget.key
        ≡ negsuc (2 ^ 64 - 1 - (5 + (2 ^ 63 - 1))))
evaluate_overflow_example =
    evaluate_overflow memory counter memory-CounterLaws readings acme_policy huge_request "k"
      used_node 5 (2 ^ 63 - 1) (used huge_budget.key) huge_cost (omega arith) (omega arith)
      (omega arith)
