-- ===== src/Engine/Lease/Return.antt =====
-- `StartConcurrencyLease` of engine.go on the memory store.
use mathlib.Core.Path.{ap, sym, subst}
use rlaas.Base.{
  String, true, false, Option, none, some, Bool, ◌≡◌, ◌∙◌, refl, arith, Bool-cases, inl, inr,
}
use rlaas.Base.Int.{pos, negsuc, ◌≤ℤ◌, ◌<ℤ◌, ◌+ℤ◌, ◌-ℤ◌}
use rlaas.Base.Int64.{Int64, InRange, ◌-w◌, +w_exact, wrap64, of_bits}
use rlaas.Base.Exec.{Result, ok, err}
use rlaas.Model.{RequestContext, Policy, Decision}
use rlaas.Algorithm.Budget.{Readings}
use rlaas.Algorithm.Concurrency.{slots, lease_duration, lease_key}
use rlaas.Store.Memory.Node.{Node, memory}
use rlaas.Store.Memory.Leases.Return.{
  holders_at, acquire_lease-holders_at, release_lease-holders_at,
}
use rlaas.Engine.Evaluator.{Engine, pick_policy}
use rlaas.Engine.Lease.{
  Release, lease, run_release, answered, is_concurrency, start_with, hold, start_concurrency_lease,
}

-- Only a slot that was taken comes with a lease, the lease of its key.
answered-lease :
    (policy : Policy) (k key : String) (r : Result (Bool × Int64))
    → (answered policy k r).1 ≡ lease key
    → (n : Int64) × (r ≡ ok (true, n)) × (lease_key k ≡ key)
unfolding answered
answered-lease policy k key (err why) h = absurd (grind (arith, h))
answered-lease policy k key (ok (false, n)) h = absurd (grind (arith, h))
answered-lease policy k key (ok (true, n)) h = (n, refl, grind (arith, h))

one_more : (a : Int64) → pos 0 ≤ℤ a → pos 0 <ℤ (a +ℤ pos 1)
unfolding ◌+ℤ◌
one_more (pos n) h = ground arith
one_more (negsuc n) h = absurd (omega arith)

-- One up and one down.
up_down : (a : Int64) → pos 0 ≤ℤ a → InRange (a +ℤ pos 1) → a +ℤ pos 1 -w pos 1 ≡ a
unfolding ◌+ℤ◌ ◌-ℤ◌ ◌-w◌ wrap64 of_bits
up_down (pos n) h ranged = ground arith
up_down (negsuc n) h ranged = absurd (omega arith)

-- One more holder, and again one less.
module _ (key : String) (s : Node) (low : pos 0 ≤ℤ holders_at s key)
    (ranged : InRange (holders_at s key +ℤ pos 1)) where
  taken-given_back :
      (limit ttl n : Int64)
      → (memory.acquire_lease key limit ttl s).0 ≡ ok (true, n)
      → let held = (memory.acquire_lease key limit ttl s).1 in
        (holders_at held key ≡ holders_at s key +ℤ pos 1)
        × (holders_at (memory.release_lease key held).1 key ≡ holders_at s key)
  taken-given_back limit ttl n h =
      let held = (memory.acquire_lease key limit ttl s).1 in
      let more : holders_at held key ≡ holders_at s key +ℤ pos 1 =
        acquire_lease-holders_at key limit ttl s n h ∙ +w_exact (holders_at s key) (pos 1) ranged in
      let less =
        release_lease-holders_at key held
          (subst (λ m. pos 0 <ℤ m) (sym more) (one_more (holders_at s key) low)) in
      (more, less ∙ ap (λ m. m -w pos 1) more ∙ up_down (holders_at s key) low ranged)

-- What is promised of a lease.
GivesBack : Node → String → (Decision × Release) × Node → Type 0
GivesBack before key started =
    (holders_at started.1 key ≡ holders_at before key +ℤ pos 1)
    × (holders_at (run_release memory started.0.1 started.1).1 key ≡ holders_at before key)

module _ (e : Engine Node) (again : Readings) (req : RequestContext) (before : Node) (key : String)
    (low : pos 0 ≤ℤ holders_at before key) (ranged : InRange (holders_at before key +ℤ pos 1)) where
  abbrev on_memory : Engine Node
  on_memory = record e { counters = memory }

  hold-GivesBack :
      (policy : Policy) (k : String)
      → (hold on_memory policy k before).0.1 ≡ lease key
      → GivesBack before key (hold on_memory policy k before)
  unfolding hold GivesBack run_release
  hold-GivesBack policy k h =
      let (n, taken, same) = answered-lease policy k key _ h in
      let back =
        taken-given_back key before low ranged (slots policy.algorithm)
          (lease_duration policy.algorithm) n (rw (← same) taken) in
      rw h (rw (same, hold) back)

  -- A resolution leads to a lease only by way of a slot that was taken.
  start_with-GivesBack :
      (r : Result (Option (Policy × String)))
      → (start_with on_memory again req r before).0.1 ≡ lease key
      → GivesBack before key (start_with on_memory again req r before)
  unfolding start_with
  start_with-GivesBack (err why) h = absurd (grind (arith, h))
  start_with-GivesBack (ok none) h = absurd (grind (arith, h))
  start_with-GivesBack (ok (some (policy, k))) h =
      elim (Bool-cases (is_concurrency policy.algorithm.type)) [
        | inl held ↦ rw (held, start_with) (hold-GivesBack policy k (rw (held, start_with) at h))
        | inr other ↦ absurd (grind (arith, other, h))
      ]

-- On the memory store: when the lease of a key comes back with the decision, the key has one holder more
-- than when the policy had been picked, and the function that comes with it brings the number back. The
-- store's clock stands still in between, and the number of holders is neither negative nor the largest
-- `int64`.
pub release_gives_back :
    (e : Engine Node) (t again : Readings) (req : RequestContext) (s : Node) (key : String)
    → let e' = record e { counters = memory } in
      let before = (pick_policy e' t.now req s).1 in
      let started = start_concurrency_lease e' t again req s in
      started.0.1 ≡ lease key
      → pos 0 ≤ℤ holders_at before key
      → InRange (holders_at before key +ℤ pos 1)
      → (holders_at started.1 key ≡ holders_at before key +ℤ pos 1)
        × (holders_at (run_release memory started.0.1 started.1).1 key ≡ holders_at before key)
unfolding start_concurrency_lease GivesBack
release_gives_back e t again req s key h low ranged =
    let picked = pick_policy (record e { counters = memory }) t.now req s in
    start_with-GivesBack e again req picked.1 key low ranged picked.0 h
