-- ===== src/Algorithm/Quota/Interference.antt =====
-- quota.go among other clients.
use rlaas.Base.{String, List, arith}
use rlaas.Base.Int.{pos, ◌+ℤ◌, ◌≤ℤ◌}
use rlaas.Base.Int64.{Int64, InRange}
use rlaas.Model.{RequestContext, Policy}
use rlaas.Store.{CounterStore}
use rlaas.Store.Laws.{CounterLaws}
use rlaas.Store.World.{shared}
use rlaas.Algorithm.Common.Windows.{cost_positive}
use rlaas.Algorithm.Budget.{Readings, max_retries}
use rlaas.Algorithm.Budget.Interference.{AllKeep, Within, spend_keeps}
use rlaas.Algorithm.Quota.{budget, evaluate}

budget-cost_nonneg :
    (t : Readings) (policy : Policy) (req : RequestContext) (key : String)
    → pos 0 ≤ℤ (budget t policy req key).cost
unfolding budget
budget-cost_nonneg t policy req key = omega (arith, cost_positive req policy.algorithm)

module _ {S : Type 0} (c : CounterStore S) (value : S → String → Int64)
    (laws : CounterLaws c value) where
  -- Whatever other clients do between the calls of an evaluation, if each of their actions keeps the
  -- period's usage between 0 and the limit, so does the whole evaluation. Limit plus cost must fit an
  -- `int64`.
  pub evaluate_keeps_limit :
      (t : Readings) (policy : Policy) (req : RequestContext) (key : String) (s : S)
      (others : List (S → S))
      → let b = budget t policy req key in
        InRange (b.limit +ℤ b.cost)
        → Within value b s
        → AllKeep (Within value b) others
        → Within value b
            (evaluate (shared c) t policy req key (record { state = s; pending = others })).1.state
  unfolding evaluate
  evaluate_keeps_limit t policy req key s others hr h all =
      let b = budget t policy req key in
      spend_keeps c value laws b (max_retries policy.algorithm) s others
        (budget-cost_nonneg t policy req key) hr h all
