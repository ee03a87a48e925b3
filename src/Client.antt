-- ===== src/Client.antt =====
-- pkg/rlaas/client.go: the engine with its matcher, key builder, cache and algorithms, over any two stores. The
-- state is that of the stores and the cache.
pub mod Denial
use rlaas.Base.{String, List, Bool, Option, none, some, if◌then◌else◌}
use rlaas.Base.Int.{ℤ}
use rlaas.Base.Time.{Time, Duration, is_zero}
use rlaas.Base.Exec.{Result, ok, err, Exec}
use rlaas.Base.Float.{FloatOps}
use rlaas.Model.{
  RequestContext, Decision, Policy, AlgorithmType, fixed_window, sliding_window_log,
  sliding_window_counter, token_bucket, leaky_bucket, concurrency, quota, unknown,
}
use rlaas.Store.{CounterStore, PolicyStore}
use rlaas.Store.Cache
use rlaas.Store.Cache.{PolicyCache}
use rlaas.Algorithm.Budget.{Readings}
use rlaas.Algorithm.FixedWindow
use rlaas.Algorithm.Quota
use rlaas.Algorithm.Concurrency
use rlaas.Algorithm.SlidingLog
use rlaas.Algorithm.SlidingCounter
use rlaas.Algorithm.TokenBucket
use rlaas.Algorithm.LeakyBucket
use rlaas.Engine.Matcher
use rlaas.Engine.Evaluator
use rlaas.Engine.Evaluator.{Engine, Algorithm}
use rlaas.Engine.Lease
use rlaas.Engine.Lease.{Release}
use rlaas.Key

-- A call of a store beside the cache.
abbrev pub beside : {S C A : Type 0} → Exec S A → Exec (S × C) A
beside m (s, c) = ((m s).0, ((m s).1, c))

beside_atomic :
    {S C : Type 0}
    → Option (String → Time → ℤ → ℤ → Time → Duration → Exec S (ℤ × Bool))
    → Option (String → Time → ℤ → ℤ → Time → Duration → Exec (S × C) (ℤ × Bool))
beside_atomic none = none
beside_atomic (some f) =
    some (λ key cutoff limit cost ts ttl. beside (f key cutoff limit cost ts ttl))

unfoldable pub counters_beside : {S C : Type 0} → CounterStore S → CounterStore (S × C)
unfolding beside_atomic
counters_beside c = record {
  increment = λ k v ttl. beside (c.increment k v ttl);
  get = λ k. beside (c.get k);
  set = λ k v ttl. beside (c.set k v ttl);
  compare_and_swap = λ k a b ttl. beside (c.compare_and_swap k a b ttl);
  delete = λ k. beside (c.delete k);
  add_timestamp = λ k ts ttl. beside (c.add_timestamp k ts ttl);
  count_after = λ k after. beside (c.count_after k after);
  trim_before = λ k before. beside (c.trim_before k before);
  acquire_lease = λ k limit ttl. beside (c.acquire_lease k limit ttl);
  release_lease = λ k. beside (c.release_lease k);
  ping = beside c.ping;
  close = beside c.close;
  atomic_timestamps = beside_atomic c.atomic_timestamps;
}

pub record Options (S : Type 0) : Type 0 where
  pub policy_store : PolicyStore S
  pub counter_store : CounterStore S
  pub cache_ttl : Duration
  pub key_prefix : String

-- `digest` is the key builder's, and `fl` the arithmetic of `float64`.
module _ {S : Type 0} (fl : FloatOps) (digest : String → String) (opts : Options S) where
  unfoldable pub algorithm_of :
      CounterStore (S × PolicyCache) → AlgorithmType → Option (Algorithm (S × PolicyCache))
  algorithm_of c fixed_window = some (FixedWindow.evaluate c)
  algorithm_of c token_bucket = some (TokenBucket.evaluate fl c)
  algorithm_of c sliding_window_counter = some (SlidingCounter.evaluate fl c)
  algorithm_of c concurrency = some (λ t policy req key. Concurrency.evaluate c t policy req key)
  algorithm_of c quota = some (Quota.evaluate c)
  algorithm_of c leaky_bucket = some (LeakyBucket.evaluate fl c)
  algorithm_of c sliding_window_log =
      some (λ t policy req key. SlidingLog.evaluate fl c t policy req key)
  algorithm_of c (unknown s) = none

  -- The engine of `New`. A nil store is refused by a panic, and is not modelled.
  unfoldable pub new_engine : Engine (S × PolicyCache)
  unfolding counters_beside algorithm_of
  new_engine = record {
    load_policies = λ namespace. beside (opts.policy_store.load_policies namespace);
    cache_get = λ now namespace x. Cache.get now namespace x.1;
    cache_set = λ now namespace policies x. (x.0, Cache.set now namespace policies x.1);
    match = λ req policies. ok (Matcher.match req policies);
    select_winner = λ req matched. Matcher.select_winner matched;
    build_key =
        λ policy req. ok (Key.build digest (Key.prefix_or_default opts.key_prefix) policy req);
    counters = counters_beside opts.counter_store;
    algorithms = algorithm_of (counters_beside opts.counter_store);
  }

  -- The cache of `New`, which is empty.
  unfoldable pub new_cache : PolicyCache
  unfolding Cache.new
  new_cache = Cache.new opts.cache_ttl

  unfoldable pub stamped : Time → RequestContext → RequestContext
  unfolding is_zero
  stamped now req = if is_zero req.timestamp then record req { timestamp = now } else req

  -- `now` is the clock's reading in `Client.Evaluate`, before those of the engine.
  unfoldable pub evaluate :
      Time → Readings → RequestContext → S × PolicyCache → Decision × (S × PolicyCache)
  unfolding new_engine stamped
  evaluate now t req = Evaluator.evaluate new_engine t (stamped now req)

  unfoldable pub start_concurrency_lease :
      Time
      → Readings
      → Readings
      → RequestContext
      → S × PolicyCache
      → (Decision × Release) × (S × PolicyCache)
  unfolding new_engine stamped
  start_concurrency_lease now t again req =
      Lease.start_concurrency_lease new_engine t again (stamped now req)
