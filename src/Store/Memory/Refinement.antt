-- ===== src/Store/Memory/Refinement.antt =====
-- The counters of the sharded store of memory/store.go, seen as one flat map.
use rlaas.Base.{
  String, true, false, ◌≡◌, ◌∙◌, refl, ap, ◌&&◌, arith, ◌==◌, eq_iff, if◌then◌else◌, ◌=ℕ◌,
  Bool-cases, inl, inr,
}
use rlaas.Base.Int.{pos, ◌=ℤ◌, +ℤ_parts}
use rlaas.Base.Int64.{Int64}
use rlaas.Base.Time.{Time, Duration, is_zero, after, add}
use rlaas.Base.Maps.{get_or, put}
use rlaas.Base.Exec.{ok}
use rlaas.Store.Laws.{CounterLaws}
use rlaas.Store.Memory.{
  ValueItem, Shard, zero_item, shard_for, expired, extend, get_value_locked, get_locked,
  compare_and_swap_locked,
}
use rlaas.Store.Memory.Node.{Node, call, memory}

-- The counter that a shard holds for a key at a time.
abbrev pub live : Time → ValueItem → Int64
live now it = if expired now it then pos 0 else it.value

unfoldable pub counter_in : Time → Shard → String → Int64
counter_in now shard key = live now (get_or (shard.values key) zero_item)

-- The counter of a key, as a client sees it.
unfoldable pub counter : Node → String → Int64
counter s key = counter_in s.now (s.store.shards (shard_for s.store key)) key

-- An entry that was live, or is new, and whose expiry was set on is live.
pub live-extend :
    (now : Time) (ttl : Duration) (it : ValueItem)
    → expired now it ≡ false
    → live now (extend now ttl it) ≡ it.value
unfolding expired extend is_zero after add
live-extend now ttl it h = ground (arith, +ℤ_parts now ttl)

-- A missing counter is never expired.
pub zero_item-live : (now : Time) → expired now zero_item ≡ false
unfolding expired is_zero
zero_item-live now = refl

module _ (now : Time) (key : String) (shard : Shard) where
  pub got-live : expired now (get_value_locked now key shard).0 ≡ false
  unfolding get_value_locked
  got-live = ground (arith, zero_item-live now)

  pub got-value : (get_value_locked now key shard).0.value ≡ counter_in now shard key
  unfolding get_value_locked counter_in
  got-value = ground arith

  pub got-counters :
      (j : String) → counter_in now (get_value_locked now key shard).1 j ≡ counter_in now shard j
  unfolding get_value_locked counter_in
  got-counters j = ground (arith, eq_iff key j, zero_item-live now)

  pub put-counters :
      (it : ValueItem) (ttl : Duration) (j : String)
      → expired now it ≡ false
      → counter_in now (record shard { values = put shard.values key (extend now ttl it) }) j
        ≡ (if key == j then it.value else counter_in now shard j)
  unfolding counter_in
  put-counters it ttl j h = ground (arith, live-extend now ttl it)

pub expired-value :
    (now : Time) (it : ValueItem) (v : Int64)
    → expired now (record it { value = v }) ≡ expired now it
unfolding expired
expired-value now it v = refl

module _ (now : Time) (key : String) (shard : Shard) where
  get_locked-answer : (get_locked now key shard).0 ≡ counter_in now shard key
  unfolding get_locked
  get_locked-answer = got-value now key shard

  get_locked-counters :
      (j : String) → counter_in now (get_locked now key shard).1 j ≡ counter_in now shard j
  unfolding get_locked
  get_locked-counters j = got-counters now key shard j

module _ (now : Time) (key : String) (old new : Int64) (ttl : Duration) (shard : Shard) where
  swap_locked-answer :
      (compare_and_swap_locked now now key old new ttl shard).0 ≡ (counter_in now shard key =ℤ old)
  unfolding compare_and_swap_locked
  swap_locked-answer = ground (arith, got-value now key shard)

  swap_locked-counters :
      (j : String)
      → counter_in now (compare_and_swap_locked now now key old new ttl shard).1 j
        ≡ (if (counter_in now shard key =ℤ old) && (key == j) then new else counter_in now shard j)
  unfolding compare_and_swap_locked
  swap_locked-counters j = elim (Bool-cases ((get_value_locked now key shard).0.value =ℤ old)) [
    | inl same ↦
        rw (← got-value now key shard, ← got-counters now key shard j, same)
          (put-counters now key shard' (record it { value = new }) ttl j live')
    | inr other ↦ rw (← got-value now key shard, ← got-counters now key shard j, other)
  ]
    where
      it : ValueItem
      it = (get_value_locked now key shard).0

      shard' : Shard
      shard' = (get_value_locked now key shard).1

      live' : expired now (record it { value = new }) ≡ false
      live' = expired-value now it new ∙ got-live now key shard

-- What a call leaves of the counters, by those of the shard that it changed.
pub call-counters :
    {A : Type 0} (f : Time → Shard → A × Shard) (k j : String) (s : Node)
    → counter (call k f s).1 j ≡ (
        if shard_for s.store k =ℕ shard_for s.store j
        then counter_in s.now (f s.now (s.store.shards (shard_for s.store k))).1 j
        else counter s j)
unfolding counter call
call-counters f k j s = ground arith

pub same_shard-counters :
    (k j : String) (s : Node)
    → (shard_for s.store k =ℕ shard_for s.store j) ≡ true
    → counter_in s.now (s.store.shards (shard_for s.store k)) j ≡ counter s j
unfolding counter
same_shard-counters k j s h = ground arith

-- A read or a swap of `memory`, seen by the view, is one on a flat map of counters.
pub memory-CounterLaws : CounterLaws memory counter
unfolding memory
memory-CounterLaws = record {
  get_ok = λ k s.
      unfold counter call in
      ap ok (get_locked-answer s.now k (s.store.shards (shard_for s.store k)));
  value-get = λ k j s. ground (
    arith,
    call-counters (λ now. get_locked now k) k j s,
    get_locked-counters s.now k (s.store.shards (shard_for s.store k)) j,
    same_shard-counters k j s,
  );
  swap_ok = λ k old new ttl s.
      unfold counter call in
      ap ok (swap_locked-answer s.now k old new ttl (s.store.shards (shard_for s.store k)));
  value-swap = λ k j old new ttl s. ground (
    arith,
    call-counters (λ now. compare_and_swap_locked now now k old new ttl) k j s,
    swap_locked-counters s.now k old new ttl (s.store.shards (shard_for s.store k)) j,
    same_shard-counters k j s,
    same_shard-counters k k s,
    eq_iff k j,
  );
}
