-- ===== src/Engine/Lease.antt =====
-- `StartConcurrencyLease` of internal/engine/evaluator/engine.go: a slot to hold while the work is done.
pub mod Return
use rlaas.Base.{String, true, false, Option, none, some, Bool, if◌then◌else◌}
use rlaas.Base.Int.{pos}
use rlaas.Base.Int64.{Int64, ◌-w◌}
use rlaas.Base.Exec.{Result, ok, err, Exec, pure}
use rlaas.Model.{
  RequestContext, Decision, Policy, AlgorithmType, concurrency, zero_decision, allow, shadow_only,
}
use rlaas.Store.{CounterStore}
use rlaas.Algorithm.Budget.{Readings}
use rlaas.Algorithm.Concurrency.{slots, lease_duration, lease_key}
use rlaas.Engine.Evaluator.{
  Engine, allow_decision, handle_failure, is_shadow, max_int64, pick_policy, evaluate,
}

-- The function that the caller gets to call at the end of its work: it does nothing, or releases the
-- lease of a key.
pub data Release : Type 0 where
  nothing : Release
  lease : String → Release

unfoldable pub run_release : {S : Type 0} → CounterStore S → Release → Exec S (Unit {0})
run_release c nothing = pure tt
run_release c (lease key) = c.release_lease key

-- The decision when every slot is taken.
refused : Policy → String → Int64 → Decision
refused policy key remaining =
    let d = record zero_decision {
      allowed = false;
      action = policy.action;
      reason = "concurrency_limit_exceeded";
      matched_policy_id = policy.policy_id;
      limit_key = key;
      remaining = remaining;
      retry_after = pos 100000000;
    } in
    if is_shadow policy.enforcement_mode
    then record d {
      shadow_mode = true;
      allowed = true;
      action = shadow_only;
      reason = "shadow_mode";
    }
    else d

-- The decision when a slot was free.
acquired : Policy → String → Int64 → Decision
acquired policy key remaining =
    let d = record zero_decision {
      allowed = true;
      action = allow;
      reason = "concurrency_lease_acquired";
      matched_policy_id = policy.policy_id;
      limit_key = key;
      remaining = remaining;
    } in
    if is_shadow policy.enforcement_mode
    then record d { shadow_mode = true; action = shadow_only }
    else d

-- What comes of the answer of `AcquireLease`.
unfoldable pub answered : Policy → String → Result (Bool × Int64) → Decision × Release
unfolding refused acquired
answered policy key (err why) = (handle_failure policy key why, nothing)
answered policy key (ok (taken, current)) =
    let remaining = max_int64 (slots policy.algorithm -w current) (pos 0) in
    if taken
    then (acquired policy key remaining, lease (lease_key key))
    else (refused policy key remaining, nothing)

is_concurrency : AlgorithmType → Bool
is_concurrency concurrency = true
is_concurrency _ = false

module _ {S : Type 0} (e : Engine S) where
  -- The concurrency limit itself.
  unfoldable pub hold : Policy → String → S → (Decision × Release) × S
  unfolding answered
  hold policy key s =
      let (r, s') =
        e.counters.acquire_lease (lease_key key) (slots policy.algorithm)
          (lease_duration policy.algorithm) s in
      (answered policy key r, s')

  -- `again` has the clock readings of the second resolution, which another algorithm's policy leads to.
  unfoldable pub start_with :
      Readings → RequestContext → Result (Option (Policy × String)) → S → (Decision × Release) × S
  unfolding is_concurrency
  start_with again req (err why) s = ((allow_decision "policy resolution failed", nothing), s)
  start_with again req (ok none) s = ((allow_decision "no policy matched", nothing), s)
  start_with again req (ok (some (policy, key))) s =
      if is_concurrency policy.algorithm.type
      then hold policy key s
      else (let (d, s') = evaluate e again req s in ((d, nothing), s'))

  unfoldable pub start_concurrency_lease :
      Readings → Readings → RequestContext → S → (Decision × Release) × S
  start_concurrency_lease t again req s =
      let (r, s') = pick_policy e t.now req s in start_with again req r s'
