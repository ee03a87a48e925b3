-- ===== src/Store/Memory/Leases/Return.antt =====
-- Taking and giving back a lease of memory/store.go.
use Prim.Native.Nat.{ℕ}
use rlaas.Base.{◌=ℕ◌, String, true, false, ◌≡◌, ◌∙◌, arith, eq_iff, Bool-cases, inl, inr}
use rlaas.Base.Int.{pos, ◌<ℤ◌, leb_ℤ, ltb_ℤ, +ℤ_parts}
use rlaas.Base.Int64.{Int64, ◌+w◌, ◌-w◌}
use rlaas.Base.Time.{Time, Duration, is_zero, after, add}
use rlaas.Base.Maps.{put}
use rlaas.Base.Exec.{ok}
use rlaas.Store.Memory.{ValueItem, Shard, expired, extend, shard_for, on_shard}
use rlaas.Store.Memory.Node.{Node, memory, call, call_fallible}
use rlaas.Store.Memory.Leases.{get_lease_locked, acquire_locked, release_locked}
use rlaas.Store.Memory.Holders.{holders, extend-value}

got-fresh :
    (now : Time) (key : String) (shard : Shard)
    → expired now (get_lease_locked now key shard).0 ≡ false
unfolding get_lease_locked expired is_zero
got-fresh now key shard = ground arith

put-holders :
    (now : Time) (key : String) (shard : Shard) (it : ValueItem)
    → expired now it ≡ false
    → holders now (record shard { leases = put shard.leases key it }) key ≡ it.value
unfolding holders get_lease_locked
put-holders now key shard it h = ground (arith, eq_iff key key)

extend-fresh :
    (now : Time) (ttl : Duration) (it : ValueItem)
    → expired now it ≡ false
    → expired now (extend now ttl it) ≡ false
unfolding expired extend is_zero after add
extend-fresh now ttl it h = ground (arith, +ℤ_parts now ttl)

release-holders :
    (now : Time) (key : String) (shard : Shard)
    → pos 0 <ℤ holders now shard key
    → holders now (release_locked now key shard).1 key ≡ holders now shard key -w pos 1
unfolding release_locked holders expired
release-holders now key shard h =
    let got = get_lease_locked now key shard in
    let some_held : ltb_ℤ (pos 0) got.0.value ≡ true = ground (arith, h) in
    rw some_held (
      put-holders now key got.1 (record got.0 { value = got.0.value -w pos 1 })
        (got-fresh now key shard))

acquire-holders :
    (now : Time) (key : String) (limit : Int64) (ttl : Duration) (shard : Shard) (n : Int64)
    → (acquire_locked now now key limit ttl shard).0 ≡ ok (true, n)
    → holders now (acquire_locked now now key limit ttl shard).1 key
      ≡ holders now shard key +w pos 1
unfolding acquire_locked holders expired
acquire-holders now key limit ttl shard n h =
    let got = get_lease_locked now key shard in
    let more = record got.0 { value = got.0.value +w pos 1 } in
    elim (Bool-cases (leb_ℤ limit (pos 0))) [
      | inl closed ↦ absurd (grind (arith, closed, h))
      | inr usable ↦ elim (Bool-cases (leb_ℤ limit got.0.value)) [
        | inl full ↦ absurd (grind (arith, usable, full, h))
        | inr room ↦
            rw (usable, room)
              (put-holders now key got.1 (extend now ttl more)
                  (extend-fresh now ttl more (got-fresh now key shard))
                ∙ extend-value now ttl more)
      ]
    ]

same_index : (n : ℕ) → (n =ℕ n) ≡ true
same_index n = ground arith

-- The holders of a key, as a client sees them.
unfoldable pub holders_at : Node → String → Int64
holders_at s key = holders s.now (s.store.shards (shard_for s.store key)) key

pub acquire_lease-holders_at :
    (key : String) (limit : Int64) (ttl : Duration) (s : Node) (n : Int64)
    → (memory.acquire_lease key limit ttl s).0 ≡ ok (true, n)
    → holders_at (memory.acquire_lease key limit ttl s).1 key ≡ holders_at s key +w pos 1
unfolding memory call_fallible on_shard holders_at
acquire_lease-holders_at key limit ttl s n h =
    rw (same_index (shard_for s.store key))
      (acquire-holders s.now key limit ttl (s.store.shards (shard_for s.store key)) n h)

pub release_lease-holders_at :
    (key : String) (s : Node)
    → pos 0 <ℤ holders_at s key
    → holders_at (memory.release_lease key s).1 key ≡ holders_at s key -w pos 1
unfolding memory call on_shard holders_at
release_lease-holders_at key s h =
    rw (same_index (shard_for s.store key))
      (release-holders s.now key (s.store.shards (shard_for s.store key)) h)
