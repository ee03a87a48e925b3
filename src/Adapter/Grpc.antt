-- ===== src/Adapter/Grpc.antt =====
-- internal/adapter/grpc: the decision service of service.go and the interceptor of interceptor.go. The messages
-- are those of the protocol definition.
pub mod Clash
use rlaas.Base.{
  String, Bool, true, false, Option, none, some, not, ◌==◌, ◌<>◌, ◌&&◌, format_int, if◌then◌else◌,
}
use rlaas.Base.Int.{pos, quot}
use rlaas.Base.Int64.{Int64}
use rlaas.Base.Time.{Time, millisecond, unix_nano}
use rlaas.Base.Maps.{Map, put, remove}
use rlaas.Base.Exec.{Result, ok, err, Exec}
use rlaas.Model.{
  RequestContext, zero_request, Decision, ActionType, action_text, allow, deny, delay, sample, drop,
  downgrade, drop_low_priority, shadow_only, other,
}
use rlaas.Control.Leases.{LeaseEvaluator}

pub record CheckLimitRequest : Type 0 where
  pub request_id : String
  pub org_id : String
  pub tenant_id : String
  pub signal_type : String
  pub operation : String
  pub endpoint : String
  pub method : String
  pub user_id : String
  pub api_key : String

pub record CheckLimitResponse : Type 0 where
  pub allowed : Bool
  pub action : String
  pub reason : String
  pub remaining : Int64
  pub retry_after_ms : Int64

pub record AcquireRequest : Type 0 where
  pub request_id : String
  pub org_id : String
  pub tenant_id : String
  pub operation : String

pub record AcquireResponse : Type 0 where
  pub allowed : Bool
  pub lease_id : String
  pub reason : String

unfoldable pub non_empty : String → String → String
non_empty value fallback = if value == "" then fallback else value

unfoldable pub check_context : CheckLimitRequest → RequestContext
unfolding non_empty
check_context i = record zero_request {
  request_id = i.request_id;
  org_id = i.org_id;
  tenant_id = i.tenant_id;
  signal_type = non_empty i.signal_type "grpc";
  operation = i.operation;
  endpoint = i.endpoint;
  method = non_empty i.method "UNARY";
  user_id = i.user_id;
  api_key = i.api_key;
}

check_response : Result Decision → Result CheckLimitResponse
check_response (err why) = err why
check_response (ok d) = ok (record {
  allowed = d.allowed;
  action = action_text d.action;
  reason = d.reason;
  remaining = d.remaining;
  retry_after_ms = quot d.retry_after millisecond;
})

unfoldable pub acquire_context : AcquireRequest → RequestContext
acquire_context i = record zero_request {
  request_id = i.request_id;
  org_id = i.org_id;
  tenant_id = i.tenant_id;
  signal_type = "grpc";
  operation = i.operation;
  endpoint = i.operation;
  method = "UNARY";
}

abbrev pub GrpcLeaseRegistry : Type 0 → Type 0
GrpcLeaseRegistry R = Map R

-- The id that `put` makes of the time.
unfoldable pub grpc_lease_id : Time → String
grpc_lease_id now = "grpc-lease-" <> format_int (unix_nano now)

unfoldable pub put_grpc_lease :
    {R : Type 0} → Time → R → GrpcLeaseRegistry R → String × GrpcLeaseRegistry R
unfolding grpc_lease_id
put_grpc_lease now fn m = (grpc_lease_id now, put m (grpc_lease_id now) fn)

unfoldable pub pop_grpc_lease :
    {R : Type 0} → String → GrpcLeaseRegistry R → Option R × GrpcLeaseRegistry R
pop_grpc_lease id m = (m id, elim (m id) [ none ↦ m | some fn ↦ remove m id ])

module _ {S R : Type 0} (e : LeaseEvaluator S R) where
  unfoldable pub check_limit : CheckLimitRequest → Exec S CheckLimitResponse
  unfolding check_context check_response
  check_limit i s =
      (check_response (e.evaluate (check_context i) s).0, (e.evaluate (check_context i) s).1)

  unfoldable pub grpc_hand_out :
      Time
      → Result (Decision × Option R)
      → GrpcLeaseRegistry R
      → Result AcquireResponse × GrpcLeaseRegistry R
  unfolding put_grpc_lease
  grpc_hand_out now (err why) m = (err why, m)
  grpc_hand_out now (ok (d, none)) m =
      (ok (record { allowed = d.allowed; lease_id = ""; reason = d.reason }), m)
  grpc_hand_out now (ok (d, some fn)) m =
      let (id, m') = put_grpc_lease now fn m in
      if d.allowed
      then (ok (record { allowed = d.allowed; lease_id = id; reason = d.reason }), m')
      else (ok (record { allowed = d.allowed; lease_id = ""; reason = d.reason }), m)

  -- `now` is the clock's reading in `put`.
  unfoldable pub acquire :
      Time
      → AcquireRequest
      → GrpcLeaseRegistry R × S
      → Result AcquireResponse × (GrpcLeaseRegistry R × S)
  unfolding acquire_context grpc_hand_out
  acquire now i (m, s) =
      let (d, s') = e.start_concurrency_lease (acquire_context i) s in
      let (response, m') = grpc_hand_out now d m in (response, (m', s'))

  succeeded : Result (Unit {0}) → Bool
  succeeded (ok _) = true
  succeeded (err why) = false

  run_popped : Option R → S → Bool × S
  unfolding succeeded
  run_popped none s = (false, s)
  run_popped (some fn) s = (succeeded (e.run fn s).0, (e.run fn s).1)

  -- The answer is `Released`; there is no error.
  unfoldable pub release : String → GrpcLeaseRegistry R × S → Bool × (GrpcLeaseRegistry R × S)
  unfolding pop_grpc_lease run_popped
  release id (m, s) =
      let (fn, m') = pop_grpc_lease id m in
      let (released, s') = run_popped fn s in (released, (m', s'))

-- What the interceptor does with a call: it fails with a status, or goes on to the handler.
pub data Intercepted : Type 0 where
  internal resource_exhausted call_handler : Intercepted

unfoldable pub is_grpc_refusal : ActionType → Bool
is_grpc_refusal deny = true
is_grpc_refusal drop = true
is_grpc_refusal drop_low_priority = true
is_grpc_refusal _ = false

unfoldable pub intercept : Result Decision → Intercepted
unfolding is_grpc_refusal
intercept (err why) = internal
intercept (ok d) =
    if not d.allowed && is_grpc_refusal d.action then resource_exhausted else call_handler

unfoldable pub interceptor_context : String → RequestContext
interceptor_context full_method = record zero_request {
  signal_type = "grpc";
  operation = full_method;
  endpoint = full_method;
  method = "UNARY";
}

unfoldable pub unary_server_interceptor :
    {S : Type 0} → (RequestContext → Exec S Decision) → String → S → Intercepted × S
unfolding intercept interceptor_context
unary_server_interceptor evaluate full_method s =
    let (d, s') = evaluate (interceptor_context full_method) s in (intercept d, s')
