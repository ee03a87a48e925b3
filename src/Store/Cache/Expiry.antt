-- ===== src/Store/Cache/Expiry.antt =====
-- How long an entry of policy_cache.go is answered.
use Prim.Native.Nat.{ℕ, suc, ◌+◌, ◌≤◌}
use rlaas.Base.{String, List, [], ◌∷◌, false, some, ◌≡◌, ◌≢◌, arith}
use rlaas.Base.Lists.{length, All}
use rlaas.Base.Int.{pos, ltb_ℤ, ◌≤ℤ◌, ◌<ℤ◌}
use rlaas.Base.Time.{Time, add, after}
use rlaas.Model.{Policy}
use rlaas.Store.Cache.{
  Item, Items, PolicyCache, find, insert, get, set, invalidate, sweep, unexpired,
}
use rlaas.Store.Cache.Lookup.{find-insert, find-insert_other, find-erase_other, length-insert}
use rlaas.Store.Cache.Bound.{length-erase}
use rlaas.Store.Cache.Freshness.{CacheCall, set_call, invalidate_call, sweep_call, call, run}

-- The call is for another namespace, or is a collection before the time.
abbrev pub Spares : String → Time → Time × CacheCall → Type 0
Spares namespace expiry (now, set_call other policies) = other ≢ namespace
Spares namespace expiry (now, invalidate_call other) = other ≢ namespace
Spares namespace expiry (now, sweep_call) = after now expiry ≡ false

length-unexpired : (now : Time) (items : Items) → length (unexpired now items) ≤ length items
unfolding unexpired
length-unexpired now [] = ground arith
length-unexpired now ((j, it) ∷ rest) = ground (arith, length-unexpired now rest)

find-unexpired :
    (now : Time) (k : String) (it : Item) (items : Items)
    → after now it.expiry ≡ false
    → find k items ≡ some it
    → find k (unexpired now items) ≡ some it
unfolding unexpired find
find-unexpired now k it [] fresh h = absurd (grind (arith, h))
find-unexpired now k it ((j, other) ∷ rest) fresh h =
    ground (arith, find-unexpired now k it rest fresh)

-- The entry is there, and this many calls can store before the cache is over its limit.
record HasRoom (namespace : String) (it : Item) (calls : ℕ) (c : PolicyCache) : Type 0 where
  found : find namespace c.items ≡ some it
  room : pos (length c.items + calls) ≤ℤ c.max_items

call-HasRoom :
    (namespace : String) (it : Item) (calls : ℕ) (x : Time × CacheCall) (c : PolicyCache)
    → Spares namespace it.expiry x
    → HasRoom namespace it (suc calls) c
    → HasRoom namespace it calls (call x.0 x.1 c)
unfolding call set invalidate sweep
call-HasRoom namespace it calls (now, set_call other policies) c apart h =
    let new : Item = record { policies = policies; expiry = add now c.ttl; last_used = now } in
    let grown = length-insert other new c.items in
    let under : ltb_ℤ c.max_items (pos (length (insert other new c.items))) ≡ false =
      ground (arith, grown, h.room) in
    let same = find-insert_other namespace other new c.items (ground (arith, apart)) in
    record {
      found = ground (arith, under, same, h.found);
      room = ground (arith, under, grown, h.room);
    }
call-HasRoom namespace it calls (now, invalidate_call other) c apart h =
    let same = find-erase_other namespace other c.items (ground (arith, apart)) in
    record {
      found = ground (arith, same, h.found);
      room = ground (arith, length-erase other c.items, h.room);
    }
call-HasRoom namespace it calls (now, sweep_call) c early h = record {
  found = find-unexpired now namespace it c.items early h.found;
  room = ground (arith, length-unexpired now c.items, h.room);
}

run-found :
    (namespace : String) (it : Item) (calls : List (Time × CacheCall)) (c : PolicyCache)
    → All (Spares namespace it.expiry) calls
    → HasRoom namespace it (length calls) c
    → find namespace (run calls c).items ≡ some it
unfolding run
run-found namespace it [] c spared h = h.found
run-found namespace it (x ∷ calls) c spared h =
    run-found namespace it calls (call x.0 x.1 c) spared.1
      (call-HasRoom namespace it (length calls) x c spared.0 h)

-- Policies that are stored are answered until their time to live is over, whatever is stored or invalidated for other
-- namespaces and whatever is collected before that time in between, as long as the cache has room for an
-- entry of each of those calls.
pub hit_until_expiry :
    (now later : Time) (namespace : String) (policies : List Policy) (c : PolicyCache)
    → (calls : List (Time × CacheCall)) → pos (length c.items + length calls) <ℤ c.max_items
    → All (Spares namespace (add now c.ttl)) calls
    → after later (add now c.ttl) ≡ false
    → get later namespace (run calls (set now namespace policies c)) ≡ some policies
unfolding get set
hit_until_expiry now later namespace policies c calls room spared fresh =
    let new : Item = record { policies = policies; expiry = add now c.ttl; last_used = now } in
    let grown = length-insert namespace new c.items in
    let under : ltb_ℤ c.max_items (pos (length (insert namespace new c.items))) ≡ false =
      ground (arith, grown) in
    let here = find-insert namespace new c.items in
    let stays =
      run-found namespace new calls (set now namespace policies c) spared
        (record { found = ground (arith, under, here); room = ground (arith, under, grown) }) in
    ground (arith, stays, fresh)
