-- ===== src/Tests/Adapters.antt =====
-- The adapters, the authentication and the client at concrete requests.
use Prim.Native.Nat.{ℕ, suc, ◌+◌}
use rlaas.Base.{String, [], ◌∷◌, true, false, none, some, ◌≡◌, refl, ◌==◌, ◌⊎◌, if◌then◌else◌}
use rlaas.Base.Maps.{empty, put, remove}
use rlaas.Base.Int.{pos, ◌-ℤ◌}
use rlaas.Base.Int64.{wrap64}
use rlaas.Base.Time.{unix}
use rlaas.Base.Exec.{ok, pure}
use rlaas.Base.Float.{FloatOps}
use rlaas.Model.{float_zero, Decision, zero_decision, Policy, fail_closed, unknown}
use rlaas.Store.{PolicyStore}
use rlaas.Store.Cache.{PolicyCache}
use rlaas.Store.Memory.Node.{Node, memory}
use rlaas.Control.Leases.{LeaseEvaluator}
use rlaas.Adapter.Grpc.{AcquireRequest, acquire, release, grpc_lease_id, intercept, call_handler}
use rlaas.Adapter.Grpc.Clash.{same_reading_loses_lease}
use rlaas.Adapter.Middleware.{enforce, next_handler}
use rlaas.Adapter.Agreement.{http_within_grpc}
use rlaas.Auth.{
  AuthMiddlewareConfig, jwt, AuthLibrary, AuthRequest, Claims, text, number, auth_middleware,
  extract_bearer_token, is_mutating_method, text_of, one_of,
}
use rlaas.Auth
use rlaas.Auth.Passed.{IsGenuine, Reads, jwt_guards}
use rlaas.Client.{Options, evaluate}
use rlaas.Engine.Matcher
use rlaas.Engine.Evaluator
use rlaas.Store.Cache
use rlaas.Engine.Evaluator.{is_candidate}
use rlaas.Key
use rlaas.Tests.Samples.{noon, readings, node, acme_request, acme_policy, per_minute}

abbrev allowed_decision : Decision
allowed_decision = record zero_decision { allowed = true }

-- The n-th lease is the number n.
abbrev evaluator : LeaseEvaluator ℕ ℕ
evaluator = record {
  evaluate = λ req s. (ok zero_decision, s);
  start_concurrency_lease = λ req s. (ok (allowed_decision, some s), suc s);
  run = λ n s. (ok tt, s + n);
}

abbrev message : AcquireRequest
message = record { request_id = "r1"; org_id = "acme"; tenant_id = ""; operation = "op" }

same_reading_loses_lease_example :
    let first = acquire evaluator noon message (empty, 5) in
    let second = acquire evaluator noon message first.1 in
    let y = release evaluator (grpc_lease_id noon) second.1 in
    (first.0 ≡ ok (record { allowed = true; lease_id = grpc_lease_id noon; reason = "" }))
    × (second.0 ≡ ok (record { allowed = true; lease_id = grpc_lease_id noon; reason = "" }))
    × (second.1 ≡ (put empty (grpc_lease_id noon) 6, 7))
    × (y.1 ≡ (remove (put empty (grpc_lease_id noon) 6) (grpc_lease_id noon), 13))
    × (release evaluator (grpc_lease_id noon) y.1 ≡ (false, y.1))
same_reading_loses_lease_example =
    same_reading_loses_lease evaluator noon message message empty 5 6 7 allowed_decision
      allowed_decision 5 6 refl refl refl refl

-- Arithmetic in which every number is 0.
abbrev floats : FloatOps
floats = record {
  of_int = λ n. float_zero;
  to_int = λ x. pos 0;
  plus = λ x y. float_zero;
  minus = λ x y. float_zero;
  times = λ x y. float_zero;
  over = λ x y. float_zero;
  lt = λ x y. false;
  le = λ x y. true;
  min = λ x y. float_zero;
  max = λ x y. float_zero;
  round = λ x. float_zero;
}

passes : (enforce floats noon false (ok allowed_decision)).outcome ≡ next_handler
unfolding enforce
passes = refl

http_within_grpc_example : intercept (ok allowed_decision) ≡ call_handler
http_within_grpc_example = http_within_grpc floats noon false (ok allowed_decision) passes

-- The claims of an admin, and a library that takes "c" for their encoding.
abbrev claims : Claims
claims name =
    if name == "role"
    then some (text "admin")
    else if name == "exp"
    then some (number float_zero)
    else none

abbrev library : AuthLibrary
library = record {
  hmac_sha256 = λ secret s. 1 ∷ [];
  decode_base64 = λ s. if s == "s" then some (1 ∷ []) else some (2 ∷ []);
  decode_claims = λ json. some claims;
  to_int = λ x. pos 0;
}

abbrev auth_config : AuthMiddlewareConfig
auth_config = record {
  enabled = true;
  mode = jwt;
  api_keys = λ k. false;
  jwt_secret = 3 ∷ [];
  jwt_issuer = "";
  jwt_audience = "";
  admin_role = "admin";
  read_role = "";
  exempt_paths = "/healthz" ∷ [];
}

abbrev delete_request : AuthRequest
delete_request = record {
  method = "DELETE";
  path = "/rlaas/v1/policies/p1";
  header = λ name. if name == "Authorization" then "Bearer h.c.s" else "";
}

closed : one_of delete_request.path auth_config.exempt_paths ≡ false
unfolding one_of
closed = refl

authorized : auth_middleware library auth_config noon delete_request ≡ Auth.next_handler
unfolding auth_middleware unix wrap64 ◌-ℤ◌
authorized = refl

jwt_guards_example :
    (c : Claims) × IsGenuine library auth_config noon (extract_bearer_token delete_request) c
    × (Reads delete_request.method
        ⊎ ((auth_config.admin_role ≡ "") ⊎ (text_of (c "role") ≡ auth_config.admin_role)))
jwt_guards_example = jwt_guards library auth_config noon delete_request refl refl closed authorized

-- A store with one policy, which has no algorithm and fails closed.
abbrev strict_policy : Policy
strict_policy = record acme_policy {
  algorithm = record per_minute { type = unknown "none" };
  failure_mode = fail_closed;
  rollout_percent = pos 100;
}

abbrev policy_store : PolicyStore Node
policy_store = record {
  load_policies = λ namespace. pure (strict_policy ∷ []);
  get_policy_by_id = λ id. pure strict_policy;
  upsert_policy = λ p. pure tt;
  delete_policy = λ id. pure tt;
  list_policies = pure (strict_policy ∷ []);
  ping = pure tt;
  close = pure tt;
}

abbrev options : Options Node
options = record {
  policy_store = policy_store;
  counter_store = memory;
  cache_ttl = pos 0;
  key_prefix = "";
}

abbrev digest : String → String
digest s = s

abbrev no_cache : PolicyCache
no_cache = record { ttl = pos 1000000000; max_items = pos 10; items = [] }

denied :
    (evaluate floats digest options noon readings acme_request (node, no_cache)).0.allowed ≡ false
unfolding evaluate Evaluator.evaluate Cache.get Cache.find Matcher.match is_candidate
    Matcher.matches_policy Matcher.matches_scope Matcher.match_string Matcher.match_tags
    Matcher.select_winner Matcher.sort_policies Matcher.insert_policy Evaluator.handle_failure
denied = refl
