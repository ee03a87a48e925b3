-- ===== src/Region/Health.antt =====
-- The `DynamicAllocator` of region/allocator.go. A map of pointers to the regions' states is a list of the
-- states, one for each name; `now` is what `time.Now()` reads.
pub mod Balance
pub mod Current
use rlaas.Base.{
  String, List, [], ◌∷◌, Bool, true, false, Option, none, some, ◌&&◌, ◌||◌, not, ◌==◌,
  if◌then◌else◌,
}
use rlaas.Base.Lists.{keep_if}
use rlaas.Base.Int.{pos, leb_ℤ, ltb_ℤ}
use rlaas.Base.Int64.{Int64}
use rlaas.Base.Time.{Time, Duration, second_ns, sub}
use rlaas.Region.Split.{RegionWeight, Allocation, allocate_global_limit}
use Prim.Native.Nat.{◌*◌}

pub data RegionHealth : Type 0 where
  healthy degraded unhealthy : RegionHealth

pub record RegionStatus : Type 0 where
  pub region : String
  pub health : RegionHealth
  pub last_heartbeat : Time
  pub current_usage : Int64

pub record DynamicAllocator : Type 0 where
  pub global_limit : Int64
  pub weights : List RegionWeight
  pub allocations : List Allocation
  pub health : List RegionStatus
  pub heartbeat_ttl : Duration

abbrev pub is_unhealthy : RegionHealth → Bool
is_unhealthy unhealthy = true
is_unhealthy _ = false

-- `da.health[region]`.
unfoldable pub status_of : String → List RegionStatus → Option RegionStatus
status_of region [] = none
status_of region (s ∷ rest) = if s.region == region then some s else status_of region rest

-- `da.health[w.Region] = &RegionStatus{…}`.
unfoldable pub put_status : RegionStatus → List RegionStatus → List RegionStatus
put_status new [] = new ∷ []
put_status new (s ∷ rest) =
    let kept = s ∷ put_status new rest in if s.region == new.region then new ∷ rest else kept

-- The region's name is known, and it is not unhealthy.
unfoldable pub takes_part : List RegionStatus → RegionWeight → Bool
unfolding status_of
takes_part health w = elim (status_of w.region health) [
  | none ↦ false
  | some s ↦ not (is_unhealthy s.health)
]

-- What `rebalanceLocked` computes: the regions that take part share the limit, all if there is none.
unfoldable pub share_out : Int64 → List RegionWeight → List RegionWeight → List Allocation
share_out global_limit weights [] = allocate_global_limit global_limit weights
share_out global_limit weights (w ∷ ws) = allocate_global_limit global_limit (w ∷ ws)

unfoldable pub balanced : Int64 → List RegionWeight → List RegionStatus → List Allocation
unfolding share_out
balanced global_limit weights health =
    share_out global_limit weights (keep_if (takes_part health) weights)

unfoldable pub rebalance_locked : DynamicAllocator → DynamicAllocator
rebalance_locked da = record da { allocations = balanced da.global_limit da.weights da.health }

-- The loop of `NewDynamicAllocator` over the weights.
first_statuses : Time → List RegionWeight → List RegionStatus → List RegionStatus
unfolding put_status
first_statuses now [] health = health
first_statuses now (w ∷ ws) health = first_statuses now ws (
    put_status
      (record { region = w.region; health = healthy; last_heartbeat = now; current_usage = pos 0 })
      health)

unfoldable pub new_dynamic_allocator :
    Time → Int64 → List RegionWeight → Duration → DynamicAllocator
unfolding first_statuses rebalance_locked
new_dynamic_allocator now global_limit weights heartbeat_ttl = rebalance_locked (record {
  global_limit = global_limit;
  weights = weights;
  allocations = [];
  health = first_statuses now weights [];
  heartbeat_ttl = if leb_ℤ heartbeat_ttl (pos 0) then pos (30 * second_ns) else heartbeat_ttl;
})

unfoldable pub heartbeat : Time → String → Int64 → DynamicAllocator → DynamicAllocator
unfolding rebalance_locked
heartbeat now region usage da = elim (status_of region da.health) [
  | none ↦ da
  | some s ↦
      (let s' = record s { last_heartbeat = now; current_usage = usage } in
        if is_unhealthy s.health
        then rebalance_locked
            (record da { health = put_status (record s' { health = healthy }) da.health })
        else record da { health = put_status s' da.health })
]

-- The heartbeat of the region is overdue, and it is not yet marked.
unfoldable pub overdue : Time → Duration → RegionStatus → Bool
overdue now ttl s = ltb_ℤ ttl (sub now s.last_heartbeat) && not (is_unhealthy s.health)

mark_overdue : Time → Duration → List RegionStatus → List RegionStatus
mark_overdue now ttl [] = []
mark_overdue now ttl (s ∷ rest) =
    (if overdue now ttl s then record s { health = unhealthy } else s) ∷ mark_overdue now ttl rest

any_overdue : Time → Duration → List RegionStatus → Bool
any_overdue now ttl [] = false
any_overdue now ttl (s ∷ rest) = overdue now ttl s || any_overdue now ttl rest

unfoldable pub check_health : Time → DynamicAllocator → DynamicAllocator
unfolding rebalance_locked mark_overdue any_overdue
check_health now da =
    let da' = record da { health = mark_overdue now da.heartbeat_ttl da.health } in
    if any_overdue now da.heartbeat_ttl da.health then rebalance_locked da' else da'

unfoldable pub drain_region : String → DynamicAllocator → DynamicAllocator
unfolding rebalance_locked
drain_region region da = elim (status_of region da.health) [
  | none ↦ da
  | some s ↦
      rebalance_locked
        (record da { health = put_status (record s { health = unhealthy }) da.health })
]

unfoldable pub restore_region : Time → String → DynamicAllocator → DynamicAllocator
unfolding rebalance_locked
restore_region now region da = elim (status_of region da.health) [
  | none ↦ da
  | some s ↦ rebalance_locked (record da {
    health = put_status (record s { health = healthy; last_heartbeat = now }) da.health;
  })
]
