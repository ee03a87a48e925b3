-- ===== src/Region/Split/Total.antt =====
-- The sum of the split of a global limit.
use Prim.Native.Nat.{ℕ, ◌+◌, ◌-◌, ◌*◌, ◌/◌, ◌^◌, ◌<◌, ◌≤◌}
use rlaas.Base.{List, [], ◌∷◌, true, false, ◌≡◌, ◌∙◌, ap, refl, ◌||◌, arith, Bool-cases, inl, inr}
use rlaas.Base.Lists.{All, keep_if}
use rlaas.Base.Int.{pos, negsuc, pos_part, ◌≤ℤ◌, ◌<ℤ◌, ◌*ℤ◌, ◌+ℤ◌, ◌-ℤ◌, quot, leb_ℤ, ◌=ℤ◌}
use rlaas.Base.Int64.{Int64, ◌+w◌, ◌-w◌, ◌*w◌, ◌/w◌, wrap64}
use rlaas.Region.Split.{
  RegionWeight, Allocation, usable, text_lt, weight_from, insert_region, sort_regions,
  at_least_zero, allot, allocate_global_limit,
}

-- What all the allocations, and all the weights, come to.
abbrev pub total_limit : List Allocation → ℕ
total_limit [] = 0
total_limit (a ∷ rest) = pos_part a.limit + total_limit rest

abbrev pub total_weight : List RegionWeight → ℕ
total_weight [] = 0
total_weight (w ∷ ws) = pos_part w.weight + total_weight ws

abbrev IsPositive : RegionWeight → Type 0
IsPositive w = pos 0 <ℤ w.weight

-- The arithmetic of Go on numbers that stay in range.
plus_exact : (a b : ℕ) → a + b < 2 ^ 63 → pos a +w pos b ≡ pos (a + b)
unfolding ◌+w◌ ◌+ℤ◌ wrap64
plus_exact a b h = ground arith

minus_exact : (a b : ℕ) → b ≤ a → a < 2 ^ 63 → pos a -w pos b ≡ pos (a - b)
unfolding ◌-w◌ ◌-ℤ◌ wrap64
minus_exact a b h k = ground arith

times_exact : (a b : ℕ) → a * b < 2 ^ 63 → pos a *w pos b ≡ pos (a * b)
unfolding ◌*w◌ ◌*ℤ◌ wrap64
times_exact a b h = ground arith

div-le : (a t : ℕ) → 0 < t → a / t ≤ a
div-le a t h = grind arith

over_exact : (a t : ℕ) → a < 2 ^ 63 → 0 < t → pos a /w pos t ≡ pos (a / t)
unfolding ◌/w◌ quot wrap64
over_exact a t h k = ground (arith, div-le a t k)

share_exact : (g w t : ℕ) → g * w < 2 ^ 63 → 0 < t → pos g *w pos w /w pos t ≡ pos (g * w / t)
share_exact g w t h k = rw (times_exact g w h) (over_exact (g * w) t h k)

cancel : (a g t : ℕ) → 0 < t → a * t ≤ g * t → a ≤ g
cancel a g t h k = grind arith

share_le : (g w t : ℕ) → 0 < t → g * w / t * t ≤ g * w
share_le g w t h = grind arith

le-mul : (g t : ℕ) → 0 < t → g ≤ g * t
le-mul g t h = grind arith

share_of :
    (g t : ℕ) (x : Int64)
    → pos 0 <ℤ x
    → g * pos_part x < 2 ^ 63
    → 0 < t
    → pos g *w x /w pos t ≡ pos (g * pos_part x / t)
share_of g t (pos w) h k ht = share_exact g w t k ht
share_of g t (negsuc w) h k ht = absurd (omega arith)

plus_of :
    (a : ℕ) (x : Int64) → pos 0 <ℤ x → a + pos_part x < 2 ^ 63 → pos a +w x ≡ pos (a + pos_part x)
plus_of a (pos w) h k = plus_exact a w k
plus_of a (negsuc w) h k = absurd (omega arith)

keep_pos : (n : ℕ) → at_least_zero (pos n) ≡ pos n
unfolding at_least_zero
keep_pos n = ground arith

-- The loop gives out what is left, and nothing is negative.
allot-total :
    (g t a : ℕ) (w : RegionWeight) (ws : List RegionWeight)
    → 0 < t
    → g * t < 2 ^ 63
    → a * t + g * total_weight (w ∷ ws) ≤ g * t
    → All IsPositive (w ∷ ws)
    → (total_limit (allot (pos g) (pos t) (pos a) (w ∷ ws)) + a ≡ g)
      × All (λ x. pos 0 ≤ℤ x.limit) (allot (pos g) (pos t) (pos a) (w ∷ ws))
unfolding allot
allot-total g t a w [] ht hg room positive =
    let fits : a ≤ g = cancel a g t ht (omega arith) in
    let small : g < 2 ^ 63 = omega (arith, le-mul g t ht) in
    rw (minus_exact g a fits small, keep_pos (g - a)) (omega arith)
allot-total g t a w (v ∷ ws) ht hg room positive =
    let small : g * pos_part w.weight < 2 ^ 63 = omega arith in
    let limit : ℕ = g * pos_part w.weight / t in
    let below = share_le g (pos_part w.weight) t ht in
    let spent : (a + limit) * t + g * total_weight (v ∷ ws) ≤ g * t = omega (arith, below) in
    let fits : a + limit ≤ g = cancel (a + limit) g t ht (omega arith) in
    let rest = allot-total g t (a + limit) v ws ht hg spent positive.1 in
    rw
      (
        share_of g t w.weight positive.0 small ht,
        keep_pos limit,
        plus_exact a limit (omega (arith, le-mul g t ht)),
      )
      (omega (arith, rest.0), (omega arith, rest.1))

weight-insert :
    (w : RegionWeight) (vs : List RegionWeight)
    → total_weight (insert_region w vs) ≡ pos_part w.weight + total_weight vs
unfolding insert_region
weight-insert w [] = refl
weight-insert w (v ∷ vs) = ground (arith, weight-insert w vs)

insert-IsPositive :
    (w : RegionWeight) (vs : List RegionWeight)
    → IsPositive w
    → All IsPositive vs
    → All IsPositive (insert_region w vs)
unfolding insert_region
insert-IsPositive w [] h all = (h, tt)
insert-IsPositive w (v ∷ vs) h all = elim (Bool-cases (text_lt v.region w.region)) [
  | inl before ↦ rw before (all.0, insert-IsPositive w vs h all.1)
  | inr after ↦ rw after (h, all)
]

weight-sort : (ws : List RegionWeight) → total_weight (sort_regions ws) ≡ total_weight ws
unfolding sort_regions
weight-sort [] = refl
weight-sort (w ∷ ws) = omega (arith, weight-insert w (sort_regions ws), weight-sort ws)

sort-IsPositive : (ws : List RegionWeight) → All IsPositive ws → All IsPositive (sort_regions ws)
unfolding sort_regions
sort-IsPositive [] all = tt
sort-IsPositive (w ∷ ws) all =
    insert-IsPositive w (sort_regions ws) all.0 (sort-IsPositive ws all.1)

usable-IsPositive : (w : RegionWeight) → usable w ≡ true → IsPositive w
unfolding usable
usable-IsPositive w h = ground arith

valid-IsPositive : (ws : List RegionWeight) → All IsPositive (keep_if usable ws)
unfolding keep_if
valid-IsPositive [] = tt
valid-IsPositive (w ∷ ws) = elim (Bool-cases (usable w)) [
  | inl good ↦ rw good (usable-IsPositive w good, valid-IsPositive ws)
  | inr bad ↦ rw bad (valid-IsPositive ws)
]

weight_from-total :
    (a : ℕ) (ws : List RegionWeight)
    → All IsPositive ws
    → a + total_weight ws < 2 ^ 63
    → weight_from (pos a) ws ≡ pos (a + total_weight ws)
unfolding weight_from
weight_from-total a [] all h = ap pos (omega arith)
weight_from-total a (w ∷ ws) all h =
    rw (plus_of a w.weight all.0 (omega arith))
      (weight_from-total (a + pos_part w.weight) ws all.1 (omega arith) ∙ ap pos (omega arith))

allot_whole :
    (g t : ℕ) (ws : List RegionWeight)
    → 0 < t
    → g * t < 2 ^ 63
    → total_weight ws ≡ t
    → All IsPositive ws
    → (total_limit (allot (pos g) (pos t) (pos 0) ws) ≡ g)
      × All (λ x. pos 0 ≤ℤ x.limit) (allot (pos g) (pos t) (pos 0) ws)
allot_whole g t [] ht hg e all = absurd (omega arith)
allot_whole g t (w ∷ ws) ht hg e all =
    let whole = allot-total g t 0 w ws ht hg (rw e (omega arith)) all in
    (omega (arith, whole.0), whole.1)

-- If the global limit is positive, some region has a name and a positive weight, and the global limit times
-- the weights of those regions fits an `int64`, the allocations add up to the global limit and none is negative.
pub allocate-total :
    (g : ℕ) (ws : List RegionWeight)
    → 0 < g
    → 0 < total_weight (keep_if usable ws)
    → g * total_weight (keep_if usable ws) < 2 ^ 63
    → (total_limit (allocate_global_limit (pos g) ws) ≡ g)
      × All (λ x. pos 0 ≤ℤ x.limit) (allocate_global_limit (pos g) ws)
unfolding allocate_global_limit
allocate-total g ws hg hw fits =
    let valid = keep_if usable ws in
    let small : total_weight valid < 2 ^ 63 = grind arith in
    let t = 0 + total_weight valid in
    let live : (leb_ℤ (pos g) (pos 0) || (pos t =ℤ pos 0)) ≡ false = ground arith in
    rw (weight_from-total 0 valid (valid-IsPositive ws) (omega arith), live)
      (allot_whole g t (sort_regions valid) (omega arith) (omega arith)
        (omega (arith, weight-sort valid)) (sort-IsPositive valid (valid-IsPositive ws)))
