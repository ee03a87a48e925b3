-- ===== src/Store/Cache.antt =====
-- internal/store/cache/policy_cache.go: the cache of loaded policies. A call under the lock is one step, and
-- `now` is what `time.Now()` reads in it. The map is a list of its entries, in the order in which a walk
-- over it meets them, which the code leaves open: a new entry is put at the end.
pub mod Bound
pub mod Lookup
pub mod Freshness
pub mod Expiry
pub mod Load
use Prim.Native.Nat.{ℕ}
use rlaas.Base.{
  String, List, [], ◌∷◌, Bool, true, false, Option, none, some, ◌&&◌, ◌||◌, not, ◌==◌, ltb,
  if◌then◌else◌,
}
use rlaas.Base.Lists.{length}
use rlaas.Base.Int.{ℤ, pos, pos_part, leb_ℤ, ltb_ℤ}
use rlaas.Base.Time.{Time, Duration, second_ns, add, after, before}
use rlaas.Model.{Policy}
use Prim.Native.Nat.{◌*◌}

pub record Item : Type 0 where
  pub policies : List Policy
  pub expiry : Time
  pub last_used : Time

abbrev pub Items : Type 0
Items = List (String × Item)

pub record PolicyCache : Type 0 where
  pub ttl : Duration
  pub max_items : ℤ
  pub items : Items

-- `NewMemoryPolicyCacheWithLimits`, less the start of the collector.
unfoldable pub new_with_limits : Duration → ℤ → PolicyCache
new_with_limits ttl max_items = record {
  ttl = if leb_ℤ ttl (pos 0) then pos (30 * second_ns) else ttl;
  max_items = if leb_ℤ max_items (pos 0) then pos 10000 else max_items;
  items = [];
}

unfoldable pub new : Duration → PolicyCache
unfolding new_with_limits
new ttl = new_with_limits ttl (pos 10000)

unfoldable pub find : String → Items → Option Item
find k [] = none
find k ((j, it) ∷ rest) = if j == k then some it else find k rest

-- `delete(m.items, k)`.
unfoldable pub erase : String → Items → Items
erase k [] = []
erase k ((j, it) ∷ rest) = let others = erase k rest in if j == k then others else (j, it) ∷ others

-- `m.items[k] = it`.
unfoldable pub insert : String → Item → Items → Items
insert k new [] = (k, new) ∷ []
insert k new ((j, it) ∷ rest) =
    let others = insert k new rest in if j == k then (k, new) ∷ rest else (j, it) ∷ others

unfoldable pub get : Time → String → PolicyCache → Option (List Policy)
unfolding after
get now namespace c = elim (find namespace c.items) [
  | none ↦ none
  | some it ↦ if after now it.expiry then none else some it.policies
]

-- The walk of `evictOldestLocked`: the first of the entries with the least time of use.
unfoldable pub oldest_from : String → Time → Items → String
unfolding before
oldest_from k t [] = k
oldest_from k t ((j, it) ∷ rest) =
    oldest_from (if before it.last_used t then j else k)
      (if before it.last_used t then it.last_used else t) rest

unfoldable pub oldest_key : Items → String
unfolding oldest_from
oldest_key [] = ""
oldest_key ((j, it) ∷ rest) = oldest_from j it.last_used rest

unfoldable pub evict_oldest : Items → Items
unfolding oldest_key
evict_oldest items = if oldest_key items == "" then items else erase (oldest_key items) items

unfoldable pub set : Time → String → List Policy → PolicyCache → PolicyCache
unfolding insert add
set now namespace policies c =
    let items =
      insert namespace (record { policies = policies; expiry = add now c.ttl; last_used = now })
        c.items in
    let over = ltb_ℤ (pos 0) c.max_items && ltb_ℤ c.max_items (pos (length items)) in
    record c { items = if over then evict_oldest items else items }

unfoldable pub invalidate : String → PolicyCache → PolicyCache
unfolding erase
invalidate namespace c = record c { items = erase namespace c.items }

unfoldable pub unexpired : Time → Items → Items
unfolding after
unexpired now [] = []
unexpired now ((j, it) ∷ rest) =
    let others = unexpired now rest in if after now it.expiry then others else (j, it) ∷ others

unfoldable pub sweep : Time → PolicyCache → PolicyCache
unfolding unexpired
sweep now c = record c { items = unexpired now c.items }
