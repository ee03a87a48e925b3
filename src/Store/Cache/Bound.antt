-- ===== src/Store/Cache/Bound.antt =====
-- The size of the cache of policy_cache.go.
use Prim.Native.Nat.{◌<◌, ◌≤◌}
use rlaas.Base.{
  String, List, [], ◌∷◌, Bool, true, false, ◌≡◌, ◌≢◌, refl, arith, ◌==◌, eq_iff, Bool-cases, inl,
  inr, ◌&&◌, ◌⊎◌, if◌then◌else◌,
}
use rlaas.Base.Lists.{length}
use rlaas.Base.Int.{ℤ, pos, ltb_ℤ, ◌≤ℤ◌, ◌+ℤ◌, +ℤ_parts}
use rlaas.Base.Time.{add, Time, before}
use rlaas.Model.{Policy}
use rlaas.Store.Cache.{
  Item, Items, PolicyCache, insert, erase, oldest_from, oldest_key, evict_oldest, set,
}
use rlaas.Store.Cache.Lookup.{stands, length-insert}

-- Each entry has a namespace other than "".
unfoldable pub named : Items → Bool
named [] = true
named ((j, it) ∷ rest) = if j == "" then false else named rest

named-insert :
    (k : String) (new : Item) (items : Items)
    → k ≢ ""
    → named items ≡ true
    → named (insert k new items) ≡ true
unfolding insert named
named-insert k new [] named_k h = ground (arith, eq_iff k "")
named-insert k new ((j, it) ∷ rest) named_k h =
    ground (arith, eq_iff k "", eq_iff j "", named-insert k new rest named_k)

pub length-erase : (k : String) (items : Items) → length (erase k items) ≤ length items
unfolding erase
length-erase k [] = ground arith
length-erase k ((j, it) ∷ rest) = ground (arith, length-erase k rest)

named-erase : (k : String) (items : Items) → named items ≡ true → named (erase k items) ≡ true
unfolding erase named
named-erase k [] h = refl
named-erase k ((j, it) ∷ rest) h = ground (arith, named-erase k rest)

erase-shorter :
    (k : String) (items : Items) → stands k items ≡ true → length (erase k items) < length items
unfolding erase stands
erase-shorter k [] h = ground arith
erase-shorter k ((j, it) ∷ rest) h = ground (arith, erase-shorter k rest, length-erase k rest)

stands-named : (k : String) (items : Items) → stands k items ≡ true → named items ≡ true → k ≢ ""
unfolding stands named
stands-named k [] h n = ground arith
stands-named k ((j, it) ∷ rest) h n = ground (arith, eq_iff j k, eq_iff j "", stands-named k rest)

oldest_from-stands :
    (k : String) (t : Time) (items : Items)
    → (oldest_from k t items ≡ k) ⊎ (stands (oldest_from k t items) items ≡ true)
unfolding oldest_from stands
oldest_from-stands k t [] = inl refl
oldest_from-stands k t ((j, it) ∷ rest) =
    let kept = if before it.last_used t then j else k in
    let least = if before it.last_used t then it.last_used else t in
    elim (oldest_from-stands kept least rest) [
      | inl same ↦ elim (Bool-cases (before it.last_used t)) [
        | inl older ↦ inr (ground (arith, eq_iff j j))
        | inr newer ↦ inl (ground arith)
      ]
      | inr found ↦ inr (ground arith)
    ]

oldest_key-stands : (items : Items) → 0 < length items → stands (oldest_key items) items ≡ true
unfolding oldest_key stands
oldest_key-stands [] h = absurd (omega arith)
oldest_key-stands ((j, it) ∷ rest) h = elim (oldest_from-stands j it.last_used rest) [
  | inl same ↦ ground (arith, eq_iff j (oldest_from j it.last_used rest))
  | inr found ↦ ground arith
]

evict_oldest-shorter :
    (items : Items)
    → named items ≡ true
    → 0 < length items
    → length (evict_oldest items) < length items
unfolding evict_oldest
evict_oldest-shorter items n h =
    let found = oldest_key-stands items h in
    ground (
      arith,
      eq_iff (oldest_key items) "",
      stands-named (oldest_key items) items found n,
      erase-shorter (oldest_key items) items found,
    )

evict_oldest-named : (items : Items) → named items ≡ true → named (evict_oldest items) ≡ true
unfolding evict_oldest
evict_oldest-named items n = ground (arith, named-erase (oldest_key items) items n)

-- A cache with a positive limit that it keeps to, no entry of which has the namespace "".
pub record IsBounded (c : PolicyCache) : Type 0 where
  pub positive : pos 1 ≤ℤ c.max_items
  pub within_limit : pos (length c.items) ≤ℤ c.max_items
  pub all_named : named c.items ≡ true

-- What `Set` does at the limit.
fitted :
    (limit : ℤ) (items : Items)
    → pos 1 ≤ℤ limit
    → pos (length items) ≤ℤ (limit +ℤ pos 1)
    → named items ≡ true
    → let over = ltb_ℤ (pos 0) limit && ltb_ℤ limit (pos (length items)) in
      (pos (length (if over then evict_oldest items else items)) ≤ℤ limit)
      × (named (if over then evict_oldest items else items) ≡ true)
fitted limit items positive near n = elim (Bool-cases (ltb_ℤ limit (pos (length items)))) [
  | inl over ↦
      let long : 0 < length items = ground arith in
      let shorter = evict_oldest-shorter items n long in
      ground (arith, evict_oldest-named items n, shorter, +ℤ_parts limit (pos 1))
  | inr under ↦ ground arith
]

-- Storing the policies of a namespace other than "" keeps the cache within its limit, whichever entry the
-- walk meets first among those used least recently.
pub set-IsBounded :
    (now : Time) (namespace : String) (policies : List Policy) (c : PolicyCache)
    → namespace ≢ ""
    → IsBounded c
    → IsBounded (set now namespace policies c)
unfolding set
set-IsBounded now namespace policies c h b =
    let new : Item = record { policies = policies; expiry = add now c.ttl; last_used = now } in
    let grown = length-insert namespace new c.items in
    let (small, all) =
      fitted c.max_items (insert namespace new c.items) b.positive
        (ground (arith, grown, b.within_limit, +ℤ_parts c.max_items (pos 1)))
        (named-insert namespace new c.items h b.all_named) in
    record { positive = b.positive; within_limit = small; all_named = all }
