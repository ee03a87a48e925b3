-- ===== src/Algorithm/Budget/Exact.antt =====
-- The loop on a store that no other client uses.
use Prim.Native.Nat.{ℕ, zero, suc, ◌<◌}
use rlaas.Base.{String, true, ◌≡◌, ◌&&◌, not, arith, if◌then◌else◌, ◌==◌}
use rlaas.Base.Int.{ltb_ℤ, ◌=ℤ◌, =ℤ_iff}
use rlaas.Base.Int64.{Int64, ◌+w◌, ◌-w◌}
use rlaas.Base.Exec.{ok}
use rlaas.Model.{Decision}
use rlaas.Store.{CounterStore}
use rlaas.Store.Laws.{CounterLaws}
use rlaas.Algorithm.Budget.{Budget, spend}

-- What the loop answers if the counter is `current`.
abbrev pub answer : Budget → Int64 → Decision
answer b current =
    if ltb_ℤ b.limit (current +w b.cost)
    then b.exceeded
    else b.granted (b.limit -w (current +w b.cost))

module _ {S : Type 0} (c : CounterStore S) (value : S → String → Int64) (laws : CounterLaws c value)
    (b : Budget) where
  -- The answer, and every counter afterwards.
  pub spend_exact :
      (n : ℕ) (s : S)
      → 0 < n
      → ((spend c b n s).0 ≡ ok (answer b (value s b.key)))
        × ((j : String)
            → value (spend c b n s).1 j ≡ (
                if not (ltb_ℤ b.limit (value s b.key +w b.cost)) && (b.key == j)
                then value s b.key +w b.cost
                else value s j))
  unfolding spend
  spend_exact zero s h = absurd (omega arith)
  spend_exact (suc n) s h = (
    ground (arith, got, kept, swapped, same),
    λ j. ground (
      arith,
      got,
      kept,
      swapped,
      same,
      laws.value-get b.key j s,
      laws.value-swap b.key j v (v +w b.cost) b.ttl s1,
    ),
  )
    where
      v : Int64
      v = value s b.key

      s1 : S
      s1 = (c.get b.key s).1

      got : (c.get b.key s).0 ≡ ok v
      got = laws.get_ok b.key s

      kept : value s1 b.key ≡ v
      kept = laws.value-get b.key b.key s

      swapped : (c.compare_and_swap b.key v (v +w b.cost) b.ttl s1).0 ≡ ok (value s1 b.key =ℤ v)
      swapped = laws.swap_ok b.key v (v +w b.cost) b.ttl s1

      same : (value s1 b.key =ℤ v) ≡ true
      same = (=ℤ_iff (value s1 b.key) v).1 kept
