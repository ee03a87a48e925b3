-- ===== src/Store/Memory/Sweep.antt =====
-- The sweep of memory/store.go's background collection, which `gcLoop` runs at each tick.
pub mod Invisible
use Prim.Native.Nat.{ℕ}
use rlaas.Base.{String, Bool, Option, none, some, ltb, if◌then◌else◌}
use rlaas.Base.Time.{Time, after}
use rlaas.Base.Maps.{Map}
use rlaas.Store.Memory.{ValueItem, Shard, MemoryStore, expired}

-- A walk over a map that deletes the expired entries.
sweep_items : Time → Map ValueItem → Map ValueItem
unfolding expired
sweep_items now m k = elim (m k) [
  | none ↦ none
  | some it ↦ if expired now it then none else some it
]

-- The log of a key goes with an expiry that is past.
log_is_past : Time → Option Time → Bool
unfolding after
log_is_past now none = Bool.false
log_is_past now (some exp) = after now exp

unfoldable pub sweep_shard : Time → Shard → Shard
unfolding sweep_items log_is_past
sweep_shard now shard = record {
  values = sweep_items now shard.values;
  timestamps = λ k. if log_is_past now (shard.ts_expiry k) then none else shard.timestamps k;
  ts_expiry = λ k. if log_is_past now (shard.ts_expiry k) then none else shard.ts_expiry k;
  leases = sweep_items now shard.leases;
}

unfoldable pub sweep : Time → MemoryStore → MemoryStore
sweep now m = record m {
  shards = λ i. if ltb i m.count then sweep_shard now (m.shards i) else m.shards i;
}
