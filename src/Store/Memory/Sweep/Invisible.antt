-- ===== src/Store/Memory/Sweep/Invisible.antt =====
-- The counters and holders of memory/store.go after its background sweep.
use rlaas.Base.{
  String, true, Option, none, some, ◌≡◌, refl, Bool-cases, inl, inr, arith, ltb, if◌then◌else◌,
}
use rlaas.Base.Int.{◌≤ℤ◌}
use rlaas.Base.Time.{Time, is_zero, after}
use rlaas.Base.Maps.{get_or}
use rlaas.Store.Memory.{ValueItem, Shard, MemoryStore, zero_item, shard_for, expired}
use rlaas.Store.Memory.Leases.{get_lease_locked}
use rlaas.Store.Memory.Holders.{holders, lease_of}
use rlaas.Store.Memory.Refinement.{live, counter_in, counter}
use rlaas.Store.Memory.Sweep.{sweep_shard, sweep}

-- What is expired stays expired.
expired-later :
    (now t : Time) (it : ValueItem) → now ≤ℤ t → expired now it ≡ true → expired t it ≡ true
unfolding expired is_zero after
expired-later now t it h e = ground arith

live-sweep_item :
    (now t : Time) (o : Option ValueItem)
    → now ≤ℤ t
    → live t (
        get_or
          (elim o [ none ↦ none | some it ↦ if expired now it then none else some it ])
          zero_item)
      ≡ live t (get_or o zero_item)
live-sweep_item now t none h = refl
live-sweep_item now t (some it) h = elim (Bool-cases (expired now it)) [
  | inl past ↦ rw past (ground (arith, expired-later now t it h past))
  | inr fresh ↦ rw fresh
]

holders-live :
    (t : Time) (shard : Shard) (key : String) → holders t shard key ≡ live t (lease_of shard key)
unfolding holders get_lease_locked
holders-live t shard key = ground arith

swept :
    (now t : Time) (shard : Shard) (key : String)
    → now ≤ℤ t
    → (counter_in t (sweep_shard now shard) key ≡ counter_in t shard key)
      × (holders t (sweep_shard now shard) key ≡ holders t shard key)
unfolding counter_in sweep_shard
swept now t shard key h = (
  live-sweep_item now t (shard.values key) h,
  rw (holders-live t (sweep_shard now shard) key, holders-live t shard key)
      (live-sweep_item now t (shard.leases key) h),
)

-- At the sweep's time or later every counter and every number of holders is what it was.
pub sweep_invisible :
    (now t : Time) (m : MemoryStore) (key : String)
    → now ≤ℤ t
    → (counter (record { store = sweep now m; now = t }) key
        ≡ counter (record { store = m; now = t }) key)
      × (holders t ((sweep now m).shards (shard_for m key)) key
          ≡ holders t (m.shards (shard_for m key)) key)
unfolding counter sweep
sweep_invisible now t m key h = elim (Bool-cases (ltb (shard_for m key) m.count)) [
  | inl inside ↦ rw inside (swept now t (m.shards (shard_for m key)) key h)
  | inr outside ↦ rw outside (refl, refl)
]
