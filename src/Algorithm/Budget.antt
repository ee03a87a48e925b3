-- ===== src/Algorithm/Budget.antt =====
-- The compare-and-swap loop that fixedwindow.go and quota.go share: read the counter, deny if the cost
-- does not fit, else swap in the sum, and try again if another client was faster.
pub mod Exact
pub mod Interference
use Prim.Native.Nat.{ℕ, zero, suc}
use rlaas.Base.{String, Bool, if◌then◌else◌}
use rlaas.Base.Int.{pos, leb_ℤ, ltb_ℤ, pos_part}
use rlaas.Base.Int64.{Int64, ◌+w◌, ◌-w◌}
use rlaas.Base.Time.{Time, Duration}
use rlaas.Base.Exec.{Exec, pure, ◌>>=◌}
use rlaas.Model.{AlgorithmConfig, Decision}
use rlaas.Store.{CounterStore}

-- The two clock readings of an evaluation: its own, and that of `OverLimitDecision`.
pub record Readings : Type 0 where
  pub now : Time
  pub wall : Time

unfoldable pub max_retries : AlgorithmConfig → ℕ
max_retries cfg = if ltb_ℤ (pos 0) cfg.max_retries then pos_part cfg.max_retries else 5

-- A limit that is not positive counts as 1.
unfoldable pub limit_or_one : Int64 → Int64
limit_or_one limit = if leb_ℤ limit (pos 0) then pos 1 else limit

-- What the loop works with: the counter's key, the numbers, and the decisions that it returns.
pub record Budget : Type 0 where
  pub key : String
  pub limit : Int64
  pub cost : Int64
  pub ttl : Duration
  pub granted : Int64 → Decision
  pub exceeded : Decision
  pub contention : Decision

unfoldable pub spend : {S : Type 0} → CounterStore S → Budget → ℕ → Exec S Decision
spend c b zero = pure b.contention
spend c b (suc n) = do
  current ← c.get b.key
  if ltb_ℤ b.limit (current +w b.cost) then pure b.exceeded else do
    swapped ← c.compare_and_swap b.key current (current +w b.cost) b.ttl
    if swapped then pure (b.granted (b.limit -w (current +w b.cost))) else spend c b n
