-- ===== src/Tests/Leases.antt =====
-- A lease of the engine at a concrete policy.
use rlaas.Base.{String, [], ◌∷◌, ◌≡◌, refl, arith, none, some}
use rlaas.Base.Int.{pos, ◌+ℤ◌, ◌≤ℤ◌}
use rlaas.Base.Int64.{InRange}
use rlaas.Base.Exec.{ok, pure}
use rlaas.Model.{Policy, zero_config, concurrency}
use rlaas.Store.Memory.Node.{Node, memory}
use rlaas.Store.Memory.Leases.Return.{holders_at}
use rlaas.Algorithm.Concurrency
use rlaas.Engine.Matcher
use rlaas.Engine.Evaluator.{Engine, pick_policy}
use rlaas.Engine.Lease.{lease, run_release, start_concurrency_lease}
use rlaas.Engine.Lease.Return.{release_gives_back}
use rlaas.Base.Int64.{◌+w◌, wrap64}
use rlaas.Base.Time.{is_zero}
use rlaas.Store.Memory.{on_shard, expired, extend, shard_index, new, new_sharded}
use rlaas.Store.Memory.Node.{call_fallible}
use rlaas.Store.Memory.Leases.{acquire_locked, get_lease_locked}
use rlaas.Store.Memory.Holders.{holders}
use rlaas.Engine.Evaluator.{is_candidate, is_in_rollout}
use rlaas.Engine.Lease.{start_with, hold, answered}
use rlaas.Tests.Samples.{noon, readings, node, acme_request, acme_policy}

-- Two at a time.
abbrev pair_policy : Policy
pair_policy = record acme_policy {
  algorithm = record zero_config { type = concurrency; max_concurrency = pos 2 };
  rollout_percent = pos 100;
}

abbrev engine : Engine Node
engine = record {
  load_policies = λ namespace. pure (pair_policy ∷ []);
  cache_get = λ now namespace s. none;
  cache_set = λ now namespace loaded s. s;
  match = λ req candidates. ok (Matcher.match req candidates);
  select_winner = λ req matched. Matcher.select_winner matched;
  build_key = λ policy req. ok "k";
  counters = memory;
  algorithms = λ type. some (Concurrency.evaluate memory);
}

leased :
    (start_concurrency_lease engine readings readings acme_request node).0.1
    ≡ lease (Concurrency.lease_key "k")
unfolding start_concurrency_lease start_with hold pick_policy is_candidate is_in_rollout
    Matcher.match Matcher.matches_policy Matcher.matches_scope Matcher.match_string
    Matcher.match_tags Matcher.match_expr Matcher.select_winner Matcher.sort_policies
    Matcher.insert_policy memory call_fallible on_shard acquire_locked get_lease_locked expired
    is_zero extend Concurrency.slots answered shard_index new new_sharded ◌+ℤ◌ ◌+w◌ wrap64
leased = refl

unheld : (key : String) → holders_at (pick_policy engine noon acme_request node).1 key ≡ pos 0
unfolding pick_policy holders_at holders get_lease_locked expired is_zero new new_sharded
unheld key = refl

low : pos 0 ≤ℤ holders_at (pick_policy engine noon acme_request node).1 (Concurrency.lease_key "k")
low = rw (unheld (Concurrency.lease_key "k")) (omega arith)

ranged :
    InRange (
      holders_at (pick_policy engine noon acme_request node).1 (Concurrency.lease_key "k") +ℤ pos 1)
unfolding ◌+ℤ◌
ranged = rw (unheld (Concurrency.lease_key "k")) (omega arith)

release_gives_back_example :
    (holders_at
        (start_concurrency_lease engine readings readings acme_request node).1
        (Concurrency.lease_key "k")
      ≡ holders_at (pick_policy engine noon acme_request node).1 (Concurrency.lease_key "k")
        +ℤ pos 1)
    × (holders_at
          (run_release memory
            (start_concurrency_lease engine readings readings acme_request node).0.1
            (start_concurrency_lease engine readings readings acme_request node).1).1
          (Concurrency.lease_key "k")
        ≡ holders_at (pick_policy engine noon acme_request node).1 (Concurrency.lease_key "k"))
release_gives_back_example =
    release_gives_back engine readings readings acme_request node (Concurrency.lease_key "k") leased
      low ranged
