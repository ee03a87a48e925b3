-- ===== src/Region/Split.antt =====
-- `AllocateGlobalLimit` and `RegionalOverflow` of region/allocator.go.
pub mod Total
use Prim.Native.Nat.{Ordering}
use Prim.Native.String.{compare}
use rlaas.Base.{
  String, List, [], ◌∷◌, Bool, true, false, Option, none, some, ◌||◌, not, ◌==◌, if◌then◌else◌,
}
use rlaas.Base.Maps.{Map, empty, put, get_or}
use rlaas.Base.Lists.{keep_if}
use rlaas.Base.Int.{pos, leb_ℤ, ltb_ℤ, ◌=ℤ◌}
use rlaas.Base.Int64.{Int64, ◌+w◌, ◌-w◌, ◌*w◌, ◌/w◌}

pub record RegionWeight : Type 0 where
  pub region : String
  pub weight : Int64

pub record Allocation : Type 0 where
  pub region : String
  pub limit : Int64

-- A region with a name and a positive weight.
unfoldable pub usable : RegionWeight → Bool
usable w = not ((w.region == "") || leb_ℤ w.weight (pos 0))

-- `totalWeight += w.Weight`, from the left.
unfoldable pub weight_from : Int64 → List RegionWeight → Int64
weight_from total [] = total
weight_from total (w ∷ ws) = weight_from (total +w w.weight) ws

pub text_lt : String → String → Bool
text_lt a b = elim (compare a b) [ Ordering.lt ↦ true | _ ↦ false ]

-- `sort.Slice` by region. It may leave regions of one name in any order; this is the order that they had.
unfoldable pub insert_region : RegionWeight → List RegionWeight → List RegionWeight
insert_region w [] = w ∷ []
insert_region w (v ∷ vs) =
    let rest = v ∷ insert_region w vs in if text_lt v.region w.region then rest else w ∷ v ∷ vs

unfoldable pub sort_regions : List RegionWeight → List RegionWeight
sort_regions [] = []
sort_regions (w ∷ ws) = insert_region w (sort_regions ws)

-- `if limit < 0 { limit = 0 }`
unfoldable pub at_least_zero : Int64 → Int64
at_least_zero limit = if ltb_ℤ limit (pos 0) then pos 0 else limit

-- The loop over the sorted regions: the last one has what the others leave.
unfoldable pub allot : Int64 → Int64 → Int64 → List RegionWeight → List Allocation
allot global_limit total assigned [] = []
allot global_limit total assigned (w ∷ []) =
    record { region = w.region; limit = at_least_zero (global_limit -w assigned) } ∷ []
allot global_limit total assigned (w ∷ v ∷ ws) =
    let limit = at_least_zero (global_limit *w w.weight /w total) in
    record { region = w.region; limit = limit }
    ∷ allot global_limit total (assigned +w limit) (v ∷ ws)

unfoldable pub allocate_global_limit : Int64 → List RegionWeight → List Allocation
allocate_global_limit global_limit weights =
    let valid = keep_if usable weights in
    let total = weight_from (pos 0) valid in
    if leb_ℤ global_limit (pos 0) || (total =ℤ pos 0)
    then []
    else allot global_limit total (pos 0) (sort_regions valid)

-- The limits by region; of two allocations of one region the later counts.
limits_of : Map Int64 → List Allocation → Map Int64
limits_of limits [] = limits
limits_of limits (a ∷ rest) = limits_of (put limits a.region a.limit) rest

-- The loop over the usage: a region with more than its limit, 0 if it has none.
overflow_of : Map Int64 → List (String × Int64) → List (String × Int64)
overflow_of limits [] = []
overflow_of limits ((region, used) ∷ rest) =
    let over = used -w get_or (limits region) (pos 0) in
    let others = overflow_of limits rest in
    if ltb_ℤ (pos 0) over then (region, over) ∷ others else others

unfoldable pub regional_overflow : List (String × Int64) → List Allocation → List (String × Int64)
unfolding limits_of overflow_of
regional_overflow usage [] = []
regional_overflow usage (a ∷ rest) = overflow_of (limits_of empty (a ∷ rest)) usage
