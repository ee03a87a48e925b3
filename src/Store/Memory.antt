-- ===== src/Store/Memory.antt =====
-- internal/store/counter/memory/store.go: the sharded in-process counter store. A call under a shard's
-- lock is one step. `check` is what `time.Now()` reads where the call looks for an expired entry, and
-- `stamp` what it reads where the call sets an expiry.
pub mod Leases
pub mod Timestamps
pub mod Sweep
pub mod Node
pub mod Refinement
pub mod Flat
pub mod Holders
use Prim.Native.Nat.{ℕ, ◌+◌, ◌*◌, ◌%◌, ◌^◌, bit_xor}
use mathlib.Core.List.{foldl}
use rlaas.Base.{
  String, List, Bool, true, false, Option, none, some, ◌&&◌, not, bytes, if◌then◌else◌, ◌=ℕ◌, ltb,
}
use rlaas.Base.Int.{ℤ, pos, leb_ℤ, ltb_ℤ, ◌=ℤ◌, pos_part}
use rlaas.Base.Int64.{Int64, ◌+w◌}
use rlaas.Base.Time.{Time, Duration, is_zero, after, add}
use rlaas.Base.Maps.{Map, empty, put, remove, get_or}

pub record ValueItem : Type 0 where
  pub value : Int64
  pub expiry : Time

abbrev pub zero_item : ValueItem
zero_item = record { value = pos 0; expiry = pos 0 }

pub record Shard : Type 0 where
  pub values : Map ValueItem
  pub timestamps : Map (List Time)
  pub ts_expiry : Map Time
  pub leases : Map ValueItem

abbrev pub empty_shard : Shard
empty_shard = record { values = empty; timestamps = empty; ts_expiry = empty; leases = empty }

-- The slice of shards has a fixed length, so it is that length and a function of the index.
pub record MemoryStore : Type 0 where
  pub count : ℕ
  pub shards : ℕ → Shard

unfoldable pub new_sharded : ℤ → MemoryStore
new_sharded shard_count = record {
  count = if leb_ℤ shard_count (pos 0) then 1 else pos_part shard_count;
  shards = λ i. empty_shard;
}

unfoldable pub new : MemoryStore
unfolding new_sharded
new = new_sharded (pos 64)

-- `hash/fnv`'s 32-bit FNV-1a.
unfoldable pub fnv32a : List ℕ → ℕ
fnv32a = foldl (λ h b. bit_xor h b * 16777619 % 2 ^ 32) 2166136261

unfoldable pub shard_index : ℕ → String → ℕ
shard_index count key = if count =ℕ 1 then 0 else fnv32a (bytes key) % count

abbrev pub shard_for : MemoryStore → String → ℕ
shard_for m key = shard_index m.count key

-- What a call does to the shard of its key, under the shard's lock.
unfoldable pub on_shard :
    {A : Type 0} → (Shard → A × Shard) → String → MemoryStore → A × MemoryStore
on_shard f key m =
    let i = shard_for m key in
    let (a, shard) = f (m.shards i) in
    (a, record m { shards = λ j. if i =ℕ j then shard else m.shards j })

-- The expiry is set, and it is past.
unfoldable pub expired : Time → ValueItem → Bool
unfolding is_zero after
expired now it = not (is_zero it.expiry) && after now it.expiry

unfoldable pub get_value_locked : Time → String → Shard → ValueItem × Shard
get_value_locked check key shard =
    let it = get_or (shard.values key) zero_item in
    if expired check it
    then (zero_item, record shard { values = remove shard.values key })
    else (it, shard)

-- `it.expiry = time.Now().Add(ttl)` if `ttl > 0`.
unfoldable pub extend : Time → Duration → ValueItem → ValueItem
unfolding add
extend stamp ttl it = if ltb_ℤ (pos 0) ttl then record it { expiry = add stamp ttl } else it

module _ (check stamp : Time) (key : String) where
  unfoldable pub increment_locked : Int64 → Duration → Shard → Int64 × Shard
  increment_locked value ttl shard =
      let (it, shard') = get_value_locked check key shard in
      let it' = extend stamp ttl (record it { value = it.value +w value }) in
      (it'.value, record shard' { values = put shard'.values key it' })

  unfoldable pub set_locked : Int64 → Duration → Shard → Unit {0} × Shard
  set_locked value ttl shard =
      let it = extend stamp ttl (record { value = value; expiry = pos 0 }) in
      (tt, record shard { values = put shard.values key it })

  unfoldable pub compare_and_swap_locked : Int64 → Int64 → Duration → Shard → Bool × Shard
  compare_and_swap_locked old new ttl shard =
      let (it, shard') = get_value_locked check key shard in
      if it.value =ℤ old
      then (
        true,
        record shard' {
          values = put shard'.values key (extend stamp ttl (record it { value = new }));
        },
      )
      else (false, shard')

-- `Delete` removes all that is stored under a key.
unfoldable pub delete_locked : String → Shard → Unit {0} × Shard
delete_locked key shard = (
  tt,
  record {
    values = remove shard.values key;
    timestamps = remove shard.timestamps key;
    ts_expiry = remove shard.ts_expiry key;
    leases = remove shard.leases key;
  },
)

-- `Get`.
unfoldable pub get_locked : Time → String → Shard → Int64 × Shard
get_locked check key shard =
    let (it, shard') = get_value_locked check key shard in (it.value, shard')
