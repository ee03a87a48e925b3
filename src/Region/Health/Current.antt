-- ===== src/Region/Health/Current.antt =====
-- The allocations of region/allocator.go's `DynamicAllocator` against a list of the regions that are up.
use rlaas.Base.{
  List, [], ◌∷◌, Bool, true, false, not, Option, none, some, ◌≡◌, ◌∙◌, ap, refl, arith,
  Option-cases, inl, inr, if◌then◌else◌,
}
use rlaas.Base.Lists.{keep_if}
use rlaas.Base.Int64.{Int64}
use rlaas.Base.Time.{Time, Duration}
use rlaas.Region.Split.{RegionWeight, allocate_global_limit}
use rlaas.Region.Health.{
  RegionHealth, healthy, degraded, unhealthy, RegionStatus, DynamicAllocator, is_unhealthy,
  status_of, takes_part, balanced, share_out, new_dynamic_allocator, heartbeat, check_health,
  drain_region, restore_region,
}
use rlaas.Region.Health.Balance.{
  Call, beat, check, drain, restore, run, run_all, run_all-IsBalanced,
}

-- The regions to share the limit, told by the three healths a region has and written apart from the code.
is_up : RegionHealth → Bool
is_up healthy = true
is_up degraded = true
is_up unhealthy = false

known_up : Option RegionStatus → Bool
unfolding is_up
known_up none = false
known_up (some s) = is_up s.health

unfoldable pub up_regions : List RegionStatus → List RegionWeight → List RegionWeight
unfolding known_up status_of
up_regions health [] = []
up_regions health (w ∷ ws) =
    let others = up_regions health ws in
    if known_up (status_of w.region health) then w ∷ others else others

-- The list, or the other one if it is empty.
unfoldable pub or_all : List RegionWeight → List RegionWeight → List RegionWeight
or_all [] all = all
or_all (w ∷ ws) all = w ∷ ws

up-lem : (h : RegionHealth) → not (is_unhealthy h) ≡ is_up h
unfolding is_up
up-lem healthy = refl
up-lem degraded = refl
up-lem unhealthy = refl

takes_part-lem :
    (health : List RegionStatus) (w : RegionWeight)
    → takes_part health w ≡ known_up (status_of w.region health)
unfolding takes_part known_up
takes_part-lem health w = elim (Option-cases (status_of w.region health)) [
  | inl absent ↦ rw (absent, takes_part)
  | inr (s, found) ↦ rw (found, takes_part) (up-lem s.health)
]

keep_if-up :
    (health : List RegionStatus) (ws : List RegionWeight)
    → keep_if (takes_part health) ws ≡ up_regions health ws
unfolding keep_if up_regions
keep_if-up health [] = refl
keep_if-up health (w ∷ ws) = ground (arith, takes_part-lem health w, keep_if-up health ws)

share_out-lem :
    (g : Int64) (weights ws : List RegionWeight)
    → share_out g weights ws ≡ allocate_global_limit g (or_all ws weights)
unfolding share_out or_all
share_out-lem g weights [] = refl
share_out-lem g weights (w ∷ ws) = refl

balanced-lem :
    (g : Int64) (weights : List RegionWeight) (health : List RegionStatus)
    → balanced g weights health
      ≡ allocate_global_limit g (or_all (up_regions health weights) weights)
unfolding balanced
balanced-lem g weights health =
    rw (keep_if-up health weights) (share_out-lem g weights (up_regions health weights))

-- No call changes the limit or the weights.
SameShares : DynamicAllocator → DynamicAllocator → Type 0
SameShares a b = (a.global_limit ≡ b.global_limit) × (a.weights ≡ b.weights)

run-SameShares : (c : Call) (da : DynamicAllocator) → SameShares (run c da) da
unfolding SameShares run heartbeat check_health drain_region restore_region
run-SameShares (beat now region usage) da = (ground arith, ground arith)
run-SameShares (check now) da = (ground arith, ground arith)
run-SameShares (drain region) da = (ground arith, ground arith)
run-SameShares (restore now region) da = (ground arith, ground arith)

run_all-SameShares : (cs : List Call) (da : DynamicAllocator) → SameShares (run_all cs da) da
unfolding SameShares run_all
run_all-SameShares [] da = (refl, refl)
run_all-SameShares (c ∷ cs) da =
    let later = run_all-SameShares cs (run c da) in
    let now = run-SameShares c da in (later.0 ∙ now.0, later.1 ∙ now.1)

-- After any calls on a new allocator, the allocations are the split of its global limit over those of its regions
-- that are healthy or degraded now, or over all its regions if there is no such region: none is stale.
pub always_balanced :
    (now : Time) (g : Int64) (weights : List RegionWeight) (ttl : Duration) (cs : List Call)
    → let da = run_all cs (new_dynamic_allocator now g weights ttl) in
      da.allocations ≡ allocate_global_limit g (or_all (up_regions da.health weights) weights)
unfolding new_dynamic_allocator SameShares
always_balanced now g weights ttl cs =
    let new = new_dynamic_allocator now g weights ttl in
    let da = run_all cs new in
    let same = run_all-SameShares cs new in
    run_all-IsBalanced cs new refl
    ∙ ap (λ l. balanced l da.weights da.health) same.0
    ∙ ap (λ ws. balanced g ws da.health) same.1
    ∙ balanced-lem g weights da.health
