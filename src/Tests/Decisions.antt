-- ===== src/Tests/Decisions.antt =====
-- The winner, the rollout and the regions at concrete inputs.
use Prim.Native.Nat.{◌^◌, ◌*◌, ◌<◌}
use mathlib.Core.List.{Memᴰ}
use rlaas.Base.{List, [], ◌∷◌, ◌≡◌, true, refl, arith, bytes}
use rlaas.Base.Lists.{All, keep_if}
use rlaas.Base.Int.{pos, ◌≤ℤ◌}
use rlaas.Base.Exec.{ok}
use rlaas.Base.Time.{second}
use rlaas.Model.{Policy}
use rlaas.Store.Memory.{fnv32a}
use rlaas.Engine.Matcher
use rlaas.Engine.Matcher.Winner.{Yields, select_winner_best}
use rlaas.Engine.Evaluator
use rlaas.Engine.Evaluator.{Engine, is_in_rollout}
use rlaas.Engine.Evaluator.Rollout.{rollout_monotone}
use rlaas.Region.Split.{RegionWeight, usable, allocate_global_limit}
use rlaas.Region.Split.Total.{total_limit, total_weight, allocate-total}
use rlaas.Region.Health.{new_dynamic_allocator}
use rlaas.Region.Health.Balance.{Call, beat, check, drain, restore, run_all}
use rlaas.Region.Health.Current.{up_regions, or_all, always_balanced}
use rlaas.Tests.Samples.{noon, acme_request, acme_scope, acme_policy}

-- A policy for one service is more specific.
abbrev orders_policy : Policy
orders_policy = record acme_policy {
  policy_id = "p2";
  scope = record acme_scope { service = "orders" };
  rollout_percent = pos 100;
}

abbrev policies : List Policy
policies = acme_policy ∷ orders_policy ∷ []

select_winner_best_example :
    (w : Policy) × (Matcher.select_winner policies ≡ ok w)
    × Memᴰ w policies
    × All (λ q. Yields q w) policies
select_winner_best_example = select_winner_best acme_policy (orders_policy ∷ [])

abbrev partial_policy : Policy
partial_policy = record acme_policy { rollout_percent = pos 99 }

takes_part : is_in_rollout partial_policy acme_request ≡ true
unfolding is_in_rollout Evaluator.rollout_bucket fnv32a bytes
takes_part = refl

rollout_monotone_example :
    is_in_rollout (record partial_policy { rollout_percent = pos 100 }) acme_request ≡ true
rollout_monotone_example =
    rollout_monotone partial_policy acme_request (pos 100) (omega arith) takes_part

abbrev weights : List RegionWeight
weights =
    record { region = "eu"; weight = pos 2 }
    ∷ record { region = "us"; weight = pos 1 }
    ∷ record { region = ""; weight = pos 5 }
    ∷ []

weighty : 0 < total_weight (keep_if usable weights)
unfolding keep_if usable
weighty = omega arith

fitting : 100 * total_weight (keep_if usable weights) < 2 ^ 63
unfolding keep_if usable
fitting = omega arith

allocate-total_example :
    (total_limit (allocate_global_limit (pos 100) weights) ≡ 100)
    × All (λ x. pos 0 ≤ℤ x.limit) (allocate_global_limit (pos 100) weights)
allocate-total_example = allocate-total 100 weights (omega arith) weighty fitting

abbrev calls : List Call
calls = drain "eu" ∷ beat noon "us" (pos 7) ∷ check noon ∷ restore noon "eu" ∷ []

always_balanced_example :
    (run_all calls (new_dynamic_allocator noon (pos 100) weights second)).allocations
    ≡ allocate_global_limit (pos 100) (
        or_all
          (up_regions
            (run_all calls (new_dynamic_allocator noon (pos 100) weights second)).health
            weights)
          weights)
always_balanced_example = always_balanced noon (pos 100) weights second calls
