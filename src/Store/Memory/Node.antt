-- ===== src/Store/Memory/Node.antt =====
-- The memory store as a `CounterStore`. Its state carries the time, which stands still within a call and
-- which the actions of others may set.
use rlaas.Base.{String, some}
use rlaas.Base.Time.{Time}
use rlaas.Base.Exec.{Result, Exec, ok}
use rlaas.Store.{CounterStore}
use rlaas.Store.Memory.{
  Shard, MemoryStore, on_shard, increment_locked, get_locked, set_locked, compare_and_swap_locked,
  delete_locked,
}
use rlaas.Store.Memory.Leases.{acquire_locked, release_locked}
use rlaas.Store.Memory.Timestamps.{
  add_timestamp_locked, count_after_locked, trim_before_locked, check_and_add_locked,
}

pub record Node : Type 0 where
  pub store : MemoryStore
  pub now : Time

-- A call that cannot fail, and one that can.
unfoldable pub call : {A : Type 0} → String → (Time → Shard → A × Shard) → Exec Node A
unfolding on_shard
call key f s = let (a, m) = on_shard (f s.now) key s.store in (ok a, record s { store = m })

unfoldable pub call_fallible :
    {A : Type 0} → String → (Time → Shard → Result A × Shard) → Exec Node A
unfolding on_shard
call_fallible key f s = let (r, m) = on_shard (f s.now) key s.store in (r, record s { store = m })

unfoldable pub memory : CounterStore Node
memory = record {
  increment = λ k v ttl. call k (λ now. increment_locked now now k v ttl);
  get = λ k. call k (λ now. get_locked now k);
  set = λ k v ttl. call k (λ now. set_locked now now k v ttl);
  compare_and_swap = λ k old new ttl. call k (λ now. compare_and_swap_locked now now k old new ttl);
  delete = λ k. call k (λ now. delete_locked k);
  add_timestamp = λ k t ttl. call k (λ now. add_timestamp_locked now k t ttl);
  count_after = λ k t. call k (λ now. count_after_locked now k t);
  trim_before = λ k t. call k (λ now. trim_before_locked k t);
  acquire_lease = λ k n ttl. call_fallible k (λ now. acquire_locked now now k n ttl);
  release_lease = λ k. call k (λ now. release_locked now k);
  ping = λ s. (ok tt, s);
  close = λ s. (ok tt, s);
  atomic_timestamps = some (λ k cutoff limit cost t ttl.
      call k (λ now. check_and_add_locked now k cutoff limit cost t ttl));
}
