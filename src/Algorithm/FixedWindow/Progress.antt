-- ===== src/Algorithm/FixedWindow/Progress.antt =====
-- fixedwindow.go among other clients.
use Prim.Native.Nat.{◌*◌, ◌<◌}
use rlaas.Base.{String, List}
use rlaas.Base.Lists.{length}
use rlaas.Base.Int64.{Int64}
use rlaas.Model.{RequestContext, Policy}
use rlaas.Store.{CounterStore}
use rlaas.Store.Laws.{CounterLaws}
use rlaas.Store.World.{shared}
use rlaas.Algorithm.Budget.{Readings, max_retries}
use rlaas.Algorithm.Budget.Interference.{Settled, spend_settles}
use rlaas.Algorithm.FixedWindow.{budget, evaluate}

module _ {S : Type 0} (c : CounterStore S) (value : S → String → Int64)
    (laws : CounterLaws c value) where
  -- If the others act fewer than two times for each attempt, whatever they do, the request is let through
  -- or denied for the limit, and not for contention.
  pub evaluate_settles :
      (t : Readings) (policy : Policy) (req : RequestContext) (key : String) (s : S)
      (others : List (S → S))
      → length others < 2 * max_retries policy.algorithm
      → Settled
          (budget t policy req key)
          (evaluate (shared c) t policy req key (record { state = s; pending = others })).0
  unfolding evaluate
  evaluate_settles t policy req key s others h =
      spend_settles c value laws (budget t policy req key) (max_retries policy.algorithm) s others h
