-- ===== src/Store/Cache/Lookup.antt =====
-- Lookups in the map of policy_cache.go after a change of it.
use Prim.Native.Nat.{◌≤◌, suc}
use rlaas.Base.{
  String, [], ◌∷◌, Bool, true, false, none, some, ◌≡◌, ◌≢◌, refl, arith, ◌==◌, eq_iff, Bool-cases,
  inl, inr, ◌⊎◌, if◌then◌else◌,
}
use mathlib.Core.Path.{ap}
use rlaas.Base.Lists.{length}
use rlaas.Base.Time.{Time}
use rlaas.Store.Cache.{Item, Items, find, insert, erase, unexpired}

pub find-erase : (k : String) (items : Items) → find k (erase k items) ≡ none
unfolding find erase
find-erase k [] = refl
find-erase k ((j, it) ∷ rest) = ground (arith, find-erase k rest)

pub find-insert : (k : String) (new : Item) (items : Items) → find k (insert k new items) ≡ some new
unfolding find insert
find-insert k new [] = ground (arith, eq_iff k k)
find-insert k new ((j, it) ∷ rest) = ground (arith, eq_iff k k, eq_iff j k, find-insert k new rest)

pub find-insert_other :
    (k j : String) (new : Item) (items : Items) → k ≢ j → find k (insert j new items) ≡ find k items
unfolding find insert
find-insert_other k j new [] h = ground (arith, eq_iff j k)
find-insert_other k j new ((i, it) ∷ rest) h =
    ground (arith, eq_iff j k, eq_iff i k, eq_iff i j, find-insert_other k j new rest)

pub find-erase_other :
    (k j : String) (items : Items) → k ≢ j → find k (erase j items) ≡ find k items
unfolding find erase
find-erase_other k j [] h = refl
find-erase_other k j ((i, it) ∷ rest) h =
    ground (arith, eq_iff j k, eq_iff i k, eq_iff i j, find-erase_other k j rest)

unfoldable pub stands : String → Items → Bool
stands k [] = false
stands k ((j, it) ∷ rest) = if j == k then true else stands k rest

-- Each namespace stands once.
unfoldable pub distinct : Items → Bool
unfolding stands
distinct [] = true
distinct ((j, it) ∷ rest) = if stands j rest then false else distinct rest

pub stands-insert :
    (k j : String) (new : Item) (items : Items)
    → k ≢ j
    → stands k (insert j new items) ≡ stands k items
unfolding stands insert
stands-insert k j new [] h = ground (arith, eq_iff j k)
stands-insert k j new ((i, it) ∷ rest) h =
    ground (arith, eq_iff j k, eq_iff i k, eq_iff i j, stands-insert k j new rest)

pub distinct-insert :
    (k : String) (new : Item) (items : Items)
    → distinct items ≡ true
    → distinct (insert k new items) ≡ true
unfolding insert stands distinct
distinct-insert k new [] h = refl
distinct-insert k new ((j, it) ∷ rest) h =
    ground (arith, eq_iff j k, distinct-insert k new rest, stands-insert j k new rest)

pub stands-erase :
    (k j : String) (items : Items) → stands k items ≡ false → stands k (erase j items) ≡ false
unfolding stands erase
stands-erase k j [] h = refl
stands-erase k j ((i, it) ∷ rest) h = ground (arith, stands-erase k j rest)

pub distinct-erase :
    (k : String) (items : Items) → distinct items ≡ true → distinct (erase k items) ≡ true
unfolding erase distinct
distinct-erase k [] h = refl
distinct-erase k ((j, it) ∷ rest) h = ground (arith, distinct-erase k rest, stands-erase j k rest)

pub stands-unexpired :
    (k : String) (now : Time) (items : Items)
    → stands k items ≡ false
    → stands k (unexpired now items) ≡ false
unfolding stands unexpired
stands-unexpired k now [] h = refl
stands-unexpired k now ((i, it) ∷ rest) h = ground (arith, stands-unexpired k now rest)

pub distinct-unexpired :
    (now : Time) (items : Items) → distinct items ≡ true → distinct (unexpired now items) ≡ true
unfolding unexpired distinct
distinct-unexpired now [] h = refl
distinct-unexpired now ((j, it) ∷ rest) h =
    ground (arith, distinct-unexpired now rest, stands-unexpired j now rest)

pub find-stands : (k : String) (items : Items) → stands k items ≡ false → find k items ≡ none
unfolding find stands
find-stands k [] h = refl
find-stands k ((j, it) ∷ rest) h = ground (arith, find-stands k rest)

-- What taking entries away does to a lookup: nothing, or a miss.
pub kept-erase :
    (k j : String) (items : Items)
    → (find k (erase j items) ≡ none) ⊎ (find k (erase j items) ≡ find k items)
kept-erase k j items = elim (Bool-cases (k == j)) [
  | inl same ↦ inl (cc (ap (λ i. find k (erase i items)) ((eq_iff k j).0 same), find-erase k items))
  | inr apart ↦ inr (find-erase_other k j items (grind (arith, eq_iff k j)))
]

pub kept-unexpired :
    (k : String) (now : Time) (items : Items)
    → distinct items ≡ true
    → (find k (unexpired now items) ≡ none) ⊎ (find k (unexpired now items) ≡ find k items)
unfolding find unexpired distinct
kept-unexpired k now [] h = inl refl
kept-unexpired k now ((j, it) ∷ rest) h = grind (
  arith,
  kept-unexpired k now rest,
  find-stands k rest,
  stands-unexpired k now rest,
  find-stands k (unexpired now rest),
  eq_iff j k,
)

pub length-insert :
    (k : String) (new : Item) (items : Items) → length (insert k new items) ≤ suc (length items)
unfolding insert
length-insert k new [] = ground arith
length-insert k new ((j, it) ∷ rest) = ground (arith, length-insert k new rest)
