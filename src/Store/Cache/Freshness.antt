-- ===== src/Store/Cache/Freshness.antt =====
-- What policy_cache.go answers after a change.
use rlaas.Base.{
  String, List, [], ◌∷◌, Bool, true, false, Option, none, some, ◌≡◌, refl, arith, ◌==◌, eq_iff,
  Bool-cases, Option-cases, inl, inr, ◌⊎◌, if◌then◌else◌,
}
use mathlib.Core.Path.{ap, sym, ◌∙◌}
use rlaas.Base.Int.{ℤ}
use rlaas.Base.Time.{Duration, Time, add}
use rlaas.Model.{Policy}
use rlaas.Store.Cache.{
  Item, Items, PolicyCache, find, insert, erase, new_with_limits, get, set, invalidate, sweep,
  unexpired, evict_oldest, oldest_key,
}
use rlaas.Store.Cache.Lookup.{
  find-insert, find-insert_other, find-erase, distinct, distinct-insert, distinct-erase,
  distinct-unexpired, kept-erase, kept-unexpired,
}

-- A call that changes the cache.
pub data CacheCall : Type 0 where
  set_call : String → List Policy → CacheCall
  invalidate_call : String → CacheCall
  sweep_call : CacheCall

unfoldable pub call : Time → CacheCall → PolicyCache → PolicyCache
call now (set_call namespace policies) c = set now namespace policies c
call now (invalidate_call namespace) c = invalidate namespace c
call now sweep_call c = sweep now c

-- Calls one after the other, each at its time.
unfoldable pub run : List (Time × CacheCall) → PolicyCache → PolicyCache
run [] c = c
run ((now, k) ∷ calls) c = run calls (call now k c)

-- What one call leaves as the policies last stored for a namespace.
unfoldable pub stored : String → CacheCall → Option (List Policy) → Option (List Policy)
stored k (set_call namespace policies) last = if namespace == k then some policies else last
stored k (invalidate_call namespace) last = if namespace == k then none else last
stored k sweep_call last = last

unfoldable pub last_stored :
    String → List (Time × CacheCall) → Option (List Policy) → Option (List Policy)
last_stored k [] last = last
last_stored k ((now, c) ∷ calls) last = last_stored k calls (stored k c last)

-- A lookup finds only what was stored last.
pub record Agrees (k : String) (last : Option (List Policy)) (items : Items) : Type 0 where
  pub once : distinct items ≡ true
  pub latest : (it : Item) → find k items ≡ some it → last ≡ some it.policies

Agrees-smaller :
    (k : String) (last : Option (List Policy)) (items fewer : Items)
    → distinct fewer ≡ true
    → (find k fewer ≡ none) ⊎ (find k fewer ≡ find k items)
    → Agrees k last items
    → Agrees k last fewer
Agrees-smaller k last items fewer once smaller a = record {
  once = once;
  latest = λ it found. elim smaller [
    | inl gone ↦ absurd (grind (arith, found, gone))
    | inr same ↦ a.latest it (sym same ∙ found)
  ];
}

Agrees-evict_oldest :
    (k : String) (last : Option (List Policy)) (items : Items)
    → Agrees k last items
    → Agrees k last (evict_oldest items)
unfolding evict_oldest
Agrees-evict_oldest k last items a = elim (Bool-cases (oldest_key items == "")) [
  | inl unnamed ↦ rw (unnamed, evict_oldest) a
  | inr named ↦
      rw (named, evict_oldest)
        (Agrees-smaller k last items (erase (oldest_key items) items)
          (distinct-erase (oldest_key items) items a.once) (kept-erase k (oldest_key items) items)
          a)
]

insert-Agrees :
    (k j : String) (new : Item) (last : Option (List Policy)) (items : Items)
    → Agrees k last items
    → Agrees k (stored k (set_call j new.policies) last) (insert j new items)
unfolding stored
insert-Agrees k j new last items a = elim (Bool-cases (j == k)) [
  | inl hit ↦
      let same = (eq_iff j k).0 hit in
      let now_found = find-insert j new items in
      let moved = ap (λ i. find i (insert j new items)) same in
      record {
        once = distinct-insert j new items a.once;
        latest = λ it found. rw (hit, stored) (grind (arith, now_found, moved, found));
      }
  | inr miss ↦ record {
    once = distinct-insert j new items a.once;
    latest = λ it found.
        rw (miss, stored)
          (a.latest it (sym (find-insert_other k j new items (grind (arith, eq_iff j k))) ∙ found));
  }
]

trimmed-Agrees :
    (over : Bool) (k : String) (last : Option (List Policy)) (items : Items)
    → Agrees k last items
    → Agrees k last (if over then evict_oldest items else items)
trimmed-Agrees true k last items a = Agrees-evict_oldest k last items a
trimmed-Agrees false k last items a = a

erase-Agrees :
    (k j : String) (last : Option (List Policy)) (items : Items)
    → Agrees k last items
    → Agrees k (stored k (invalidate_call j) last) (erase j items)
unfolding stored
erase-Agrees k j last items a = elim (Bool-cases (j == k)) [
  | inl hit ↦
      let same = (eq_iff j k).0 hit in
      let gone = find-erase j items in
      let moved = ap (λ i. find i (erase j items)) same in
      record {
        once = distinct-erase j items a.once;
        latest = λ it found. absurd (grind (arith, gone, moved, found));
      }
  | inr miss ↦
      rw (miss, stored)
        (Agrees-smaller k last items (erase j items) (distinct-erase j items a.once)
          (kept-erase k j items) a)
]

call-Agrees :
    (now : Time) (c : CacheCall) (k : String) (last : Option (List Policy)) (cache : PolicyCache)
    → Agrees k last cache.items
    → Agrees k (stored k c last) (call now c cache).items
unfolding call stored set invalidate sweep
call-Agrees now (set_call j policies) k last cache a =
    let new : Item = record { policies = policies; expiry = add now cache.ttl; last_used = now } in
    trimmed-Agrees _ k _ (insert j new cache.items) (insert-Agrees k j new last cache.items a)
call-Agrees now (invalidate_call j) k last cache a = erase-Agrees k j last cache.items a
call-Agrees now sweep_call k last cache a =
    Agrees-smaller k last cache.items (unexpired now cache.items)
      (distinct-unexpired now cache.items a.once) (kept-unexpired k now cache.items a.once) a

run-Agrees :
    (calls : List (Time × CacheCall)) (k : String) (last : Option (List Policy))
    (cache : PolicyCache)
    → Agrees k last cache.items
    → Agrees k (last_stored k calls last) (run calls cache).items
unfolding run last_stored
run-Agrees [] k last cache a = a
run-Agrees ((now, c) ∷ calls) k last cache a =
    run-Agrees calls k (stored k c last) (call now c cache) (call-Agrees now c k last cache a)

new-Agrees :
    (ttl : Duration) (max_items : ℤ) (k : String)
    → Agrees k none (new_with_limits ttl max_items).items
unfolding new_with_limits find distinct
new-Agrees ttl max_items k = record {
  once = refl;
  latest = λ it found. absurd (grind (arith, found));
}

hit-found :
    (now : Time) (k : String) (c : PolicyCache) (policies : List Policy)
    → get now k c ≡ some policies
    → (it : Item) × (find k c.items ≡ some it) × (policies ≡ it.policies)
unfolding get
hit-found now k c policies hit = elim (Option-cases (find k c.items)) [
  | inl miss ↦ absurd (grind (arith, hit, miss))
  | inr (it, found) ↦ (it, found, grind (arith, hit, found))
]

-- Whatever stores, invalidations and collections a new cache has seen, and at whatever times, a hit for a
-- namespace answers with the policies that were last stored for it and not invalidated since.
pub hit_is_last_stored :
    (ttl : Duration) (max_items : ℤ) (calls : List (Time × CacheCall)) (now : Time)
    (namespace : String) (policies : List Policy)
    → get now namespace (run calls (new_with_limits ttl max_items)) ≡ some policies
    → last_stored namespace calls none ≡ some policies
hit_is_last_stored ttl max_items calls now namespace policies hit =
    let cache = run calls (new_with_limits ttl max_items) in
    let a =
      run-Agrees calls namespace none (new_with_limits ttl max_items)
        (new-Agrees ttl max_items namespace) in
    let (it, found, same) = hit-found now namespace cache policies hit in
    a.latest it found ∙ ap some (sym same)
