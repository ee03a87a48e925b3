-- ===== src/Tests/Stores.antt =====
-- The memory store and the policy cache at concrete calls.
use rlaas.Base.{[], ◌∷◌, ◌≡◌, List, some, none, refl, arith, eq_iff}
use rlaas.Base.Int.{pos, ◌≤ℤ◌, ◌+ℤ◌}
use rlaas.Base.Time.{Time, second, add, after}
use rlaas.Store.Memory.{empty_shard, new, shard_for}
use rlaas.Store.Memory.Refinement.{counter}
use rlaas.Store.Memory.Holders.{
  LeaseCall, acquire, release, Capped, holders, run_calls, run_calls-Capped,
}
use rlaas.Store.Memory.Timestamps.Counts.{count_from}
use rlaas.Store.Memory.Timestamps.Rolling.{
  LogCall, cutoff, log_calls, last_time, InOrder, rolling_limit,
}
use rlaas.Store.Memory.Sweep.{sweep}
use rlaas.Store.Memory.Sweep.Invisible.{sweep_invisible}
use rlaas.Store.Cache
use rlaas.Store.Cache.Bound.{IsBounded, named, set-IsBounded}
use rlaas.Store.Cache.Freshness.{
  CacheCall, set_call, invalidate_call, sweep_call, run, last_stored, hit_is_last_stored,
}
use rlaas.Store.Cache.Expiry.{hit_until_expiry}
use rlaas.Tests.Samples.{noon, acme_policy}

-- Two requests for two units each, half a second apart, and a third.
abbrev log_history : List LogCall
log_history =
    record { now = noon; stamp = noon; cost = pos 2 }
    ∷ record { now = add noon (pos 500000000); stamp = noon; cost = pos 2 }
    ∷ record { now = add noon second; stamp = noon; cost = pos 1 }
    ∷ []

log_order : InOrder "k" (pos 3) second noon log_history
unfolding add ◌+ℤ◌
log_order = omega arith

rolling_limit_example :
    pos (
      count_from
        (cutoff "k" (pos 3) second (last_time "k" (pos 3) second noon log_history))
        (log_calls "k"
          (pos 3)
          second
          log_history
          (record { shard = empty_shard; admitted = [] })).admitted)
    ≤ℤ pos 3
rolling_limit_example =
    rolling_limit "k" (pos 3) second noon log_history empty_shard (omega arith) refl log_order

abbrev lease_history : List LeaseCall
lease_history = acquire noon noon ∷ acquire noon noon ∷ release noon ∷ acquire noon noon ∷ []

run_calls-Capped_example :
    Capped "k" (pos 2) (run_calls "k" (pos 2) second lease_history empty_shard)
run_calls-Capped_example =
    run_calls-Capped "k" (pos 2) second (omega arith)
      (record { below = omega arith; above = omega arith }) lease_history empty_shard
      (record { nonneg = omega arith; capped = omega arith })

sweep_invisible_example :
    (counter (record { store = sweep noon new; now = add noon second }) "k"
      ≡ counter (record { store = new; now = add noon second }) "k")
    × (holders (add noon second) ((sweep noon new).shards (shard_for new "k")) "k"
        ≡ holders (add noon second) (new.shards (shard_for new "k")) "k")
sweep_invisible_example =
    sweep_invisible noon (add noon second) new "k" (unfold add ◌+ℤ◌ in omega arith)

abbrev small_cache : Cache.PolicyCache
small_cache = record {
  ttl = second;
  max_items = pos 1;
  items = ("a", record { policies = []; expiry = noon; last_used = noon }) ∷ [];
}

small-IsBounded : IsBounded small_cache
unfolding named
small-IsBounded = record { positive = omega arith; within_limit = omega arith; all_named = refl }

set-IsBounded_example : IsBounded (Cache.set noon "b" (acme_policy ∷ []) small_cache)
set-IsBounded_example =
    set-IsBounded noon "b" (acme_policy ∷ []) small_cache
      (λ h. absurd (grind (arith, eq_iff "b" "", h))) small-IsBounded

abbrev cache_history : List (Time × CacheCall)
cache_history =
    (noon, set_call "a" [])
    ∷ (noon, set_call "b" (acme_policy ∷ []))
    ∷ (noon, invalidate_call "a")
    ∷ (noon, sweep_call)
    ∷ []

cache_hit :
    Cache.get noon "b" (run cache_history (Cache.new_with_limits second (pos 4)))
    ≡ some (acme_policy ∷ [])
unfolding run Cache.get Cache.find Cache.Freshness.call Cache.sweep Cache.invalidate Cache.set
    Cache.new_with_limits ◌+ℤ◌
cache_hit = refl

hit_is_last_stored_example : last_stored "b" cache_history none ≡ some (acme_policy ∷ [])
hit_is_last_stored_example =
    hit_is_last_stored second (pos 4) cache_history noon "b" (acme_policy ∷ []) cache_hit

-- Between storing and asking, another namespace is stored and invalidated, and a collection finds nothing.
abbrev others : List (Time × CacheCall)
others = (noon, set_call "c" []) ∷ (noon, sweep_call) ∷ (noon, invalidate_call "c") ∷ []

hit_until_expiry_example :
    Cache.get noon "b" (run others (Cache.set noon "b" (acme_policy ∷ []) (Cache.new second)))
    ≡ some (acme_policy ∷ [])
hit_until_expiry_example =
    hit_until_expiry noon noon "b" (acme_policy ∷ []) (Cache.new second) others
      (unfold Cache.new Cache.new_with_limits in omega arith)
      (
        λ e. absurd (ground (arith, eq_iff "c" "b", e)),
        (
          unfold after add ◌+ℤ◌ Cache.new Cache.new_with_limits in refl,
          (λ e. absurd (ground (arith, eq_iff "c" "b", e)), tt),
        ),
      )
      (unfold after add ◌+ℤ◌ Cache.new Cache.new_with_limits in refl)
