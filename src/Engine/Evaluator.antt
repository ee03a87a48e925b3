-- ===== src/Engine/Evaluator.antt =====
-- internal/engine/evaluator/engine.go: the decision on a request. What the engine holds is a record of
-- operations over one state: the policy store, the cache, the matcher, the key builder, the counter store
-- and the algorithms.
pub mod Denials
pub mod Rollout
pub mod InForce
use Prim.Native.Nat.{ℕ, ◌%◌, ◌*◌}
use rlaas.Base.{
  String, List, [], ◌∷◌, Bool, true, false, Option, none, some, ◌&&◌, ◌||◌, not, ◌==◌, ◌<>◌, bytes,
  if◌then◌else◌,
}
use rlaas.Base.Lists.{keep_if}
use rlaas.Base.Int.{pos, leb_ℤ, ltb_ℤ}
use rlaas.Base.Int64.{Int64, ◌-w◌}
use rlaas.Base.Time.{Time, Duration, unix}
use rlaas.Base.Exec.{Result, ok, err, Exec, pure, ◌>>=◌, ◌>>◌}
use rlaas.Model.{
  StringMap, RequestContext, ActionType, action_text, allow, deny, shadow_only, Decision,
  zero_decision, AlgorithmType, concurrency, fail_open, fail_closed, unset_failure, FailureMode,
  EnforcementMode, enforce, shadow, unset_enforcement, Policy,
}
use rlaas.Store.{CounterStore}
use rlaas.Store.Memory.{fnv32a}
use rlaas.Algorithm.Budget.{Readings}
use rlaas.Algorithm.Concurrency.{slots, lease_duration, lease_key}

-- An algorithm's `Evaluate`.
abbrev pub Algorithm : Type 0 → Type 0
Algorithm S = Readings → Policy → RequestContext → String → Exec S Decision

pub record Engine (S : Type 0) : Type 0 where
  pub load_policies : String → Exec S (List Policy)
  pub cache_get : Time → String → S → Option (List Policy)
  pub cache_set : Time → String → List Policy → S → S
  pub match : RequestContext → List Policy → Result (List Policy)
  pub select_winner : RequestContext → List Policy → Result Policy
  pub build_key : Policy → RequestContext → Result String
  pub counters : CounterStore S
  pub algorithms : AlgorithmType → Option (Algorithm S)

unfoldable pub allow_decision : String → Decision
allow_decision reason = record zero_decision { allowed = true; action = allow; reason = reason }

unfoldable pub ensure_map : Option StringMap → StringMap
ensure_map none = []
ensure_map (some m) = m

unfoldable pub max_int64 : Int64 → Int64 → Int64
max_int64 a b = if ltb_ℤ b a then a else b

-- `m[k] = v`.
unfoldable pub put_entry : String → String → StringMap → StringMap
put_entry k v [] = (k, v) ∷ []
put_entry k v ((j, w) ∷ m) =
    let rest = put_entry k v m in if j == k then (k, v) ∷ m else (j, w) ∷ rest

abbrev pub is_shadow : EnforcementMode → Bool
is_shadow shadow = true
is_shadow _ = false

failure : FailureMode → Policy → String → String → Decision
failure fail_closed policy key reason = record zero_decision {
  allowed = false;
  action = deny;
  reason = "fail_closed: " <> reason;
  matched_policy_id = policy.policy_id;
  limit_key = key;
}
failure _ policy key reason = record zero_decision {
  allowed = true;
  action = allow;
  reason = "fail_open: " <> reason;
  matched_policy_id = policy.policy_id;
  limit_key = key;
}

unfoldable pub handle_failure : Policy → String → String → Decision
unfolding failure
handle_failure policy key reason = failure policy.failure_mode policy key reason

-- The text that decides a request's bucket of 100.
unfoldable pub rollout_seed : RequestContext → String
rollout_seed req =
    if req.request_id == ""
    then req.org_id <> ":" <> req.tenant_id <> ":" <> req.user_id
    else req.request_id

unfoldable pub rollout_bucket : Policy → RequestContext → ℕ
unfolding rollout_seed
rollout_bucket policy req = fnv32a (bytes (policy.policy_id <> ":" <> rollout_seed req)) % 100

unfoldable pub is_in_rollout : Policy → RequestContext → Bool
is_in_rollout policy req =
    if leb_ℤ policy.rollout_percent (pos 0)
    then false
    else if leb_ℤ (pos 100) policy.rollout_percent
    then true
    else ltb_ℤ (pos (rollout_bucket policy req)) policy.rollout_percent

-- The guards of `pickPolicy`'s loop.
unfoldable pub is_candidate : Time → RequestContext → Policy → Bool
is_candidate now req p =
    p.enabled
    && not (ltb_ℤ (pos 0) p.valid_from_unix && ltb_ℤ (unix now) p.valid_from_unix)
    && not (ltb_ℤ (pos 0) p.valid_to_unix && ltb_ℤ p.valid_to_unix (unix now))
    && not (
        ltb_ℤ (pos 0) p.rollout_percent
        && ltb_ℤ p.rollout_percent (pos 100)
        && not (is_in_rollout p req))

unfoldable pub namespace_of : RequestContext → String
namespace_of req = if req.tenant_id == "" then req.org_id else req.tenant_id

-- Shadow mode lets a request through, and notes what would have been done.
unfoldable pub shadowed : Policy → Decision → Decision
unfolding ensure_map put_entry
shadowed policy d =
    if is_shadow policy.enforcement_mode
    then record d {
      metadata =
          some (put_entry "shadow_would_action" (action_text d.action) (ensure_map d.metadata));
      shadow_mode = true;
      allowed = true;
      action = shadow_only;
      reason = "shadow_mode";
    }
    else d

module _ {S : Type 0} (e : Engine S) where
  -- The policies of a namespace, from the cache or else from the store.
  unfoldable pub policies_of : Time → String → Exec S (List Policy)
  policies_of now namespace s = elim (e.cache_get now namespace s) [
    | some policies ↦ (ok policies, s)
    | none ↦
        (do
          loaded ← e.load_policies namespace
          λ s'. (ok loaded, e.cache_set now namespace loaded s'))
          s
  ]

  -- The winner among the matched policies, with its key; `none` if none matched.
  unfoldable pub winner_of : RequestContext → List Policy → Result (Option (Policy × String))
  winner_of req [] = ok none
  winner_of req (p ∷ ps) = elim (e.select_winner req (p ∷ ps)) [
    | err why ↦ err why
    | ok winner ↦ elim (e.build_key winner req) [
      | err why ↦ err why
      | ok key ↦ ok (some (winner, key))
    ]
  ]

  unfoldable pub choose : RequestContext → Result (List Policy) → Result (Option (Policy × String))
  unfolding winner_of
  choose req (err why) = err why
  choose req (ok matched) = winner_of req matched

  unfoldable pub pick_policy : Time → RequestContext → Exec S (Option (Policy × String))
  unfolding policies_of choose keep_if
  pick_policy now req = do
    policies ← policies_of now (namespace_of req)
    λ s. (choose req (e.match req (keep_if (is_candidate now req) policies)), s)

  -- The algorithm's answer, or what its failure comes to, in the policy's name.
  finish : Policy → String → Result Decision → Decision
  finish policy key (err why) = handle_failure policy key why
  finish policy key (ok d) =
      shadowed policy (record d { matched_policy_id = policy.policy_id; limit_key = key })

  decide : Readings → RequestContext → Policy → String → S → Decision × S
  unfolding finish
  decide t req policy key s = elim (e.algorithms policy.algorithm.type) [
    | none ↦ (handle_failure policy key "algorithm not configured", s)
    | some algorithm ↦ (let (r, s') = algorithm t policy req key s in (finish policy key r, s'))
  ]

  -- `Evaluate` always returns a decision and no error.
  conclude : Readings → RequestContext → Result (Option (Policy × String)) → S → Decision × S
  unfolding decide
  conclude t req (err why) s = (allow_decision ("policy resolution failed: " <> why), s)
  conclude t req (ok none) s = (allow_decision "no policy matched", s)
  conclude t req (ok (some (policy, key))) s = decide t req policy key s

  unfoldable pub evaluate : Readings → RequestContext → S → Decision × S
  unfolding conclude pick_policy
  evaluate t req s = let (r, s') = pick_policy t.now req s in conclude t req r s'
