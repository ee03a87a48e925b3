-- ===== src/Store/Memory/Flat.antt =====
-- The calls of memory/store.go that write a counter, and those that do not touch one.
use rlaas.Base.{String, ◌≡◌, ◌∙◌, refl, ap, arith, ◌==◌, eq_iff, if◌then◌else◌}
use rlaas.Base.Int.{pos}
use rlaas.Base.Int64.{Int64, ◌+w◌}
use rlaas.Base.Time.{Time, Duration}
use rlaas.Base.Exec.{Result, ok}
use rlaas.Store.Laws.{FlatLaws}
use rlaas.Store.Memory.{
  Shard, shard_for, zero_item, extend, get_value_locked, increment_locked, set_locked,
  delete_locked,
}
use rlaas.Store.Memory.Node.{Node, call, call_fallible, memory}
use rlaas.Store.Memory.Leases.{get_lease_locked, acquire_locked, release_locked}
use rlaas.Store.Memory.Timestamps.{
  extend_log, clean_ts_locked, add_timestamp_locked, count_after_locked, trim_before_locked,
}
use rlaas.Store.Memory.Refinement.{
  counter_in, counter, zero_item-live, expired-value, got-live, got-value, got-counters,
  put-counters, call-counters, same_shard-counters, memory-CounterLaws,
}

module _ (now : Time) (key : String) (v : Int64) (ttl : Duration) (shard : Shard) where
  increment_locked-answer :
      (increment_locked now now key v ttl shard).0 ≡ counter_in now shard key +w v
  unfolding increment_locked extend
  increment_locked-answer = ground (arith, got-value now key shard)

  increment_locked-counters :
      (j : String)
      → counter_in now (increment_locked now now key v ttl shard).1 j
        ≡ (if key == j then counter_in now shard key +w v else counter_in now shard j)
  unfolding increment_locked
  increment_locked-counters j =
      let it = (get_value_locked now key shard).0 in
      let live' = expired-value now it (it.value +w v) ∙ got-live now key shard in
      rw (← got-value now key shard, ← got-counters now key shard j)
        (put-counters now key (get_value_locked now key shard).1
          (record it { value = it.value +w v }) ttl j live')

  set_locked-counters :
      (j : String)
      → counter_in now (set_locked now now key v ttl shard).1 j
        ≡ (if key == j then v else counter_in now shard j)
  unfolding set_locked
  set_locked-counters j =
      put-counters now key shard (record zero_item { value = v }) ttl j
        (expired-value now zero_item v ∙ zero_item-live now)

delete_locked-counters :
    (now : Time) (key j : String) (shard : Shard)
    → counter_in now (delete_locked key shard).1 j
      ≡ (if key == j then pos 0 else counter_in now shard j)
unfolding delete_locked counter_in
delete_locked-counters now key j shard = ground (arith, zero_item-live now)

-- A call that leaves the values of its shard leaves every counter.
kept_counters :
    {A : Type 0} (f : Time → Shard → A × Shard)
    → ((now : Time) (shard : Shard) → (f now shard).1.values ≡ shard.values)
    → (k j : String) (s : Node) → counter (call k f s).1 j ≡ counter s j
unfolding counter_in
kept_counters f same k j s = ground (
  arith,
  call-counters f k j s,
  same s.now (s.store.shards (shard_for s.store k)),
  same_shard-counters k j s,
)

kept_fallible :
    {A : Type 0} (f : Time → Shard → Result A × Shard)
    → ((now : Time) (shard : Shard) → (f now shard).1.values ≡ shard.values)
    → (k j : String) (s : Node) → counter (call_fallible k f s).1 j ≡ counter s j
unfolding call call_fallible
kept_fallible f same k j s = kept_counters f same k j s

-- The sharded store does to the counters what one flat map of counters does.
pub memory-FlatLaws : FlatLaws memory counter
unfolding memory
memory-FlatLaws = record {
  reads_and_swaps = memory-CounterLaws;
  increment_ok = λ k v ttl s.
      unfold counter call in
      ap ok (increment_locked-answer s.now k v ttl (s.store.shards (shard_for s.store k)));
  value-increment = λ k j v ttl s. ground (
    arith,
    call-counters (λ now. increment_locked now now k v ttl) k j s,
    increment_locked-counters s.now k v ttl (s.store.shards (shard_for s.store k)) j,
    same_shard-counters k j s,
    same_shard-counters k k s,
    eq_iff k j,
  );
  set_ok = λ k v ttl s. unfold call set_locked in refl;
  value-set = λ k j v ttl s. ground (
    arith,
    call-counters (λ now. set_locked now now k v ttl) k j s,
    set_locked-counters s.now k v ttl (s.store.shards (shard_for s.store k)) j,
    same_shard-counters k j s,
    eq_iff k j,
  );
  delete_ok = λ k s. unfold call delete_locked in refl;
  value-delete = λ k j s. ground (
    arith,
    call-counters (λ now. delete_locked k) k j s,
    delete_locked-counters s.now k j (s.store.shards (shard_for s.store k)),
    same_shard-counters k j s,
    eq_iff k j,
  );
  value-add_timestamp = λ k j t ttl.
      kept_counters (λ now. add_timestamp_locked now k t ttl)
        (λ now shard. unfold add_timestamp_locked extend_log in ground arith) k j;
  value-count_after = λ k j t.
      kept_counters (λ now. count_after_locked now k t)
        (λ now shard. unfold count_after_locked clean_ts_locked in ground arith) k j;
  value-trim_before = λ k j t.
      kept_counters (λ now. trim_before_locked k t) (λ now shard. unfold trim_before_locked in refl)
        k j;
  value-acquire_lease = λ k j n ttl.
      kept_fallible (λ now. acquire_locked now now k n ttl)
        (λ now shard. unfold acquire_locked get_lease_locked in ground arith) k j;
  value-release_lease = λ k j.
      kept_counters (λ now. release_locked now k)
        (λ now shard. unfold release_locked get_lease_locked in ground arith) k j;
}
