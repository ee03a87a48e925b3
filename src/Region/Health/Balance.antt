-- ===== src/Region/Health/Balance.antt =====
-- The allocations of the `DynamicAllocator` after its calls.
use rlaas.Base.{
  String, List, [], ◌∷◌, Bool, false, some, ◌≡◌, ◌∙◌, ap, refl, sym, arith, ◌==◌, eq_iff,
  Option-cases, Bool-cases, inl, inr, if◌then◌else◌,
}
use mathlib.Core.Path.{fun_ext}
use rlaas.Base.Lists.{keep_if}
use rlaas.Base.Int64.{Int64}
use rlaas.Base.Time.{Time, Duration}
use rlaas.Region.Split.{RegionWeight}
use rlaas.Region.Health.{
  RegionStatus, DynamicAllocator, is_unhealthy, status_of, put_status, takes_part, balanced,
  share_out, heartbeat, mark_overdue, any_overdue, check_health, drain_region, restore_region,
}

-- A call on the allocator.
pub data Call : Type 0 where
  beat : Time → String → Int64 → Call
  check : Time → Call
  drain : String → Call
  restore : Time → String → Call

unfoldable pub run : Call → DynamicAllocator → DynamicAllocator
run (beat now region usage) da = heartbeat now region usage da
run (check now) da = check_health now da
run (drain region) da = drain_region region da
run (restore now region) da = restore_region now region da

unfoldable pub run_all : List Call → DynamicAllocator → DynamicAllocator
unfolding run
run_all [] da = da
run_all (c ∷ cs) da = run_all cs (run c da)

abbrev pub IsBalanced : DynamicAllocator → Type 0
IsBalanced da = da.allocations ≡ balanced da.global_limit da.weights da.health

-- A lookup after a write.
status_of-put :
    (region : String) (new : RegionStatus) (health : List RegionStatus)
    → status_of region (put_status new health)
      ≡ (if new.region == region then some new else status_of region health)
unfolding status_of put_status
status_of-put region new [] = refl
status_of-put region new (s ∷ rest) = ground (
  arith,
  eq_iff s.region new.region,
  eq_iff s.region region,
  eq_iff new.region region,
  status_of-put region new rest,
)

-- A status whose health has the same weight changes nothing.
takes_part-put :
    (w : RegionWeight) (new old : RegionStatus) (health : List RegionStatus)
    → status_of new.region health ≡ some old
    → is_unhealthy new.health ≡ is_unhealthy old.health
    → takes_part (put_status new health) w ≡ takes_part health w
unfolding takes_part
takes_part-put w new old health found same =
    ground (arith, status_of-put w.region new health, eq_iff new.region w.region)

status_of-region :
    (region : String) (health : List RegionStatus) (s : RegionStatus)
    → status_of region health ≡ some s
    → s.region ≡ region
unfolding status_of
status_of-region region [] s h = cc
status_of-region region (x ∷ rest) s h =
    ground (arith, eq_iff x.region region, status_of-region region rest s)

no_change :
    (now : Time) (ttl : Duration) (health : List RegionStatus)
    → any_overdue now ttl health ≡ false
    → mark_overdue now ttl health ≡ health
unfolding any_overdue mark_overdue
no_change now ttl [] h = refl
no_change now ttl (s ∷ rest) h = ground (arith, no_change now ttl rest)

balanced-put :
    (g : Int64) (weights : List RegionWeight) (new old : RegionStatus) (health : List RegionStatus)
    → status_of new.region health ≡ some old
    → is_unhealthy new.health ≡ is_unhealthy old.health
    → balanced g weights (put_status new health) ≡ balanced g weights health
unfolding balanced
balanced-put g weights new old health found same =
    ap (λ (p : RegionWeight → Bool). share_out g weights (keep_if p weights))
      (fun_ext (λ w. takes_part-put w new old health found same))

heartbeat-IsBalanced :
    (now : Time) (region : String) (usage : Int64) (da : DynamicAllocator)
    → IsBalanced da
    → IsBalanced (heartbeat now region usage da)
unfolding heartbeat
heartbeat-IsBalanced now region usage da h = elim (Option-cases (status_of region da.health)) [
  | inl absent ↦ rw (absent, heartbeat) h
  | inr (s, found) ↦ elim (Bool-cases (is_unhealthy s.health)) [
    | inl down ↦ rw (found, down, heartbeat) refl
    | inr up ↦
        let s' = record s { last_heartbeat = now; current_usage = usage } in
        let named = status_of-region region da.health s found in
        rw (found, up, heartbeat)
          (h
            ∙ sym (balanced-put da.global_limit da.weights s' s da.health (cc (named, found)) refl))
  ]
]

check_health-IsBalanced :
    (now : Time) (da : DynamicAllocator) → IsBalanced da → IsBalanced (check_health now da)
unfolding check_health
check_health-IsBalanced now da h = elim (Bool-cases (any_overdue now da.heartbeat_ttl da.health)) [
  | inl late ↦ rw late refl
  | inr quiet ↦ rw (quiet, no_change now da.heartbeat_ttl da.health quiet) h
]

drain_region-IsBalanced :
    (region : String) (da : DynamicAllocator) → IsBalanced da → IsBalanced (drain_region region da)
unfolding drain_region
drain_region-IsBalanced region da h = elim (Option-cases (status_of region da.health)) [
  | inl absent ↦ rw (absent, drain_region) h
  | inr (s, found) ↦ rw (found, drain_region) refl
]

restore_region-IsBalanced :
    (now : Time) (region : String) (da : DynamicAllocator)
    → IsBalanced da
    → IsBalanced (restore_region now region da)
unfolding restore_region
restore_region-IsBalanced now region da h = elim (Option-cases (status_of region da.health)) [
  | inl absent ↦ rw (absent, restore_region) h
  | inr (s, found) ↦ rw (found, restore_region) refl
]

pub run_all-IsBalanced :
    (cs : List Call) (da : DynamicAllocator) → IsBalanced da → IsBalanced (run_all cs da)
unfolding run_all
run_all-IsBalanced [] da h = h
run_all-IsBalanced (beat now region usage ∷ cs) da h =
    run_all-IsBalanced cs (heartbeat now region usage da)
      (heartbeat-IsBalanced now region usage da h)
run_all-IsBalanced (check now ∷ cs) da h =
    run_all-IsBalanced cs (check_health now da) (check_health-IsBalanced now da h)
run_all-IsBalanced (drain region ∷ cs) da h =
    run_all-IsBalanced cs (drain_region region da) (drain_region-IsBalanced region da h)
run_all-IsBalanced (restore now region ∷ cs) da h =
    run_all-IsBalanced cs (restore_region now region da) (restore_region-IsBalanced now region da h)
