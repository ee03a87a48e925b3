-- ===== src/Algorithm/FixedWindow/Overflow.antt =====
-- fixedwindow.go where the sum of count and cost passes the largest `int64`.
use Prim.Native.Nat.{ℕ, ◌+◌, ◌-◌, ◌^◌, ◌<◌, ◌≤◌}
use rlaas.Base.{String, false, ◌≡◌, ◌∙◌, ap, arith, eq_iff}
use rlaas.Base.Int.{pos, negsuc, ltb_ℤ}
use rlaas.Base.Int64.{Int64, ◌+w◌, ◌-w◌, +w_overflow}
use rlaas.Base.Exec.{ok}
use rlaas.Model.{RequestContext, Policy}
use rlaas.Store.{CounterStore}
use rlaas.Store.Laws.{CounterLaws}
use rlaas.Algorithm.Budget.{Readings, Budget, limit_or_one, max_retries}
use rlaas.Algorithm.Budget.Exact.{answer, spend_exact}
use rlaas.Algorithm.FixedWindow.{budget, evaluate}
use rlaas.Algorithm.FixedWindow.Exact.{max_retries_pos}

-- A limit is at least 1, so no negative number exceeds it.
limit-not_exceeded : (limit : Int64) (n : ℕ) → ltb_ℤ (limit_or_one limit) (negsuc n) ≡ false
unfolding limit_or_one
limit-not_exceeded limit n = ground arith

budget-limit :
    (t : Readings) (policy : Policy) (req : RequestContext) (key : String) (n : ℕ)
    → ltb_ℤ (budget t policy req key).limit (negsuc n) ≡ false
unfolding budget
budget-limit t policy req key n = limit-not_exceeded policy.algorithm.limit n

answer-granted :
    (b : Budget) (current wrapped : Int64)
    → current +w b.cost ≡ wrapped
    → ltb_ℤ b.limit wrapped ≡ false
    → answer b current ≡ b.granted (b.limit -w wrapped)
answer-granted b current wrapped e low = rw (e, low)

module _ {S : Type 0} (c : CounterStore S) (value : S → String → Int64)
    (laws : CounterLaws c value) where
  -- If count and cost are not negative and their sum passes the largest `int64`, the request is let
  -- through, whatever the limit, and the window's count becomes a negative number.
  pub evaluate_overflow :
      (t : Readings) (policy : Policy) (req : RequestContext) (key : String) (s : S) (p q : ℕ)
      → let b = budget t policy req key in
        value s b.key ≡ pos p
        → b.cost ≡ pos q
        → p < 2 ^ 63
        → q < 2 ^ 63
        → 2 ^ 63 ≤ p + q
        → let wrapped = negsuc (2 ^ 64 - 1 - (p + q)) in
          ((evaluate c t policy req key s).0 ≡ ok (b.granted (b.limit -w wrapped)))
          × (value (evaluate c t policy req key s).1 b.key ≡ wrapped)
  unfolding evaluate
  evaluate_overflow t policy req key s p q hv hc hp hq h =
      let b = budget t policy req key in
      let sum : value s b.key +w b.cost ≡ negsuc (2 ^ 64 - 1 - (p + q)) =
        rw (hv, hc) (+w_overflow p q hp hq h) in
      let low : ltb_ℤ b.limit (negsuc (2 ^ 64 - 1 - (p + q))) ≡ false =
        budget-limit t policy req key (2 ^ 64 - 1 - (p + q)) in
      let exact =
        spend_exact c value laws b (max_retries policy.algorithm) s
          (max_retries_pos policy.algorithm) in
      let after = exact.1 b.key in
      (
        exact.0 ∙ ap ok (answer-granted b (value s b.key) (negsuc (2 ^ 64 - 1 - (p + q))) sum low),
        ground (arith, after, sum, low, eq_iff b.key b.key),
      )
