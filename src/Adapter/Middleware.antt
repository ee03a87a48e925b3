-- ===== src/Adapter/Middleware.antt =====
-- internal/adapter/http/middleware.go. The header of a response is a list of its fields, each once; the next
-- handler and the JSON coder are not under this code.
pub mod Bounds
use Prim.Native.Nat.{ℕ}
use rlaas.Base.{
  String, List, [], ◌∷◌, Bool, true, false, Option, none, some, ◌==◌, ◌||◌, not, format_int,
  if◌then◌else◌,
}
use rlaas.Base.Int.{pos, ltb_ℤ}
use rlaas.Base.Int64.{Int64}
use rlaas.Base.Time.{Time, Duration, is_zero, sub}
use rlaas.Base.Trim.{cut_at, trim_space}
use rlaas.Base.Float.{FloatOps, seconds}
use rlaas.Base.Exec.{Result, ok, err, Exec}
use rlaas.Model.{
  StringMap, RequestContext, zero_request, Decision, ActionType, allow, deny, delay, sample, drop,
  downgrade, drop_low_priority, shadow_only, other,
}
use rlaas.Engine.Evaluator.{put_entry}

pub record HttpCall : Type 0 where
  pub header : String → String
  pub path : String
  pub method : String
  pub host : String
  pub remote_addr : String

-- What happens to a request: it is answered with a text, or with a decision, goes on to the next handler, or
-- its caller has gone while it waited.
pub data Outcome : Type 0 where
  error_text : ℕ → String → Outcome
  decision_body : Decision → Outcome
  next_handler given_up : Outcome

-- The response header, for how long the request is held back at most, and what happens then.
pub record Handled : Type 0 where
  pub header : StringMap
  pub waited : Duration
  pub outcome : Outcome

first_part : String → Option (String × String) → String
first_part s none = s
first_part s (some (a, b)) = a

unfoldable pub source_ip : HttpCall → String
unfolding cut_at trim_space first_part
source_ip r =
    let forwarded = r.header "X-Forwarded-For" in
    if forwarded == ""
    then r.remote_addr
    else trim_space (first_part forwarded (cut_at b',' forwarded))

unfoldable pub http_request : HttpCall → RequestContext
unfolding source_ip
http_request r = record zero_request {
  request_id = r.header "X-Request-Id";
  org_id = r.header "X-Org-Id";
  tenant_id = r.header "X-Tenant-Id";
  application = r.header "X-Application";
  service = r.header "X-Service";
  signal_type = "http";
  operation = r.path;
  endpoint = r.path;
  method = r.method;
  user_id = r.header "X-User-Id";
  api_key = r.header "X-Api-Key";
  client_id = r.header "X-Client-Id";
  source_ip = source_ip r;
  tags = ("host", r.host) ∷ [];
}

-- `case model.ActionDeny, model.ActionDrop, model.ActionDropLowPriority`.
unfoldable pub is_refusal : ActionType → Bool
is_refusal deny = true
is_refusal drop = true
is_refusal drop_low_priority = true
is_refusal _ = false

abbrev pub is_delay : ActionType → Bool
is_delay delay = true
is_delay _ = false

-- `maxDelay`.
abbrev pub max_delay : Duration
max_delay = pos 30000000000

unfoldable pub capped_delay : Duration → Duration
capped_delay d = if ltb_ℤ max_delay d then max_delay else d

module _ (fl : FloatOps) where
  -- `retrySeconds`.
  unfoldable pub retry_seconds : Decision → Int64
  unfolding seconds
  retry_seconds d =
      let n = fl.to_int (seconds fl d.retry_after) in if ltb_ℤ n (pos 1) then pos 1 else n

  -- `RateLimit-Reset`, at the time `now`.
  reset_seconds : Time → Time → Int64
  unfolding seconds sub
  reset_seconds now reset_at =
      let delta = seconds fl (sub reset_at now) in
      fl.to_int (if fl.lt delta (fl.of_int (pos 0)) then fl.of_int (pos 0) else delta)

  unfoldable pub set_rate_limit_headers : Time → Decision → StringMap → StringMap
  unfolding put_entry reset_seconds is_zero format_int
  set_rate_limit_headers now d h =
      let h = put_entry "X-RateLimit-Remaining" (format_int d.remaining) h in
      let h =
        if d.matched_policy_id == ""
        then h
        else put_entry "RateLimit-Policy" d.matched_policy_id h in
      let h = put_entry "RateLimit-Remaining" (format_int d.remaining) h in
      if is_zero d.reset_at
      then h
      else put_entry "RateLimit-Reset" (format_int (reset_seconds now d.reset_at)) h

  unfoldable pub refused : Time → Decision → Handled
  unfolding set_rate_limit_headers retry_seconds put_entry format_int
  refused now d = record {
    header =
        put_entry "Retry-After" (format_int (retry_seconds d)) (set_rate_limit_headers now d []);
    waited = pos 0;
    outcome = error_text 429 "too many requests";
  }

  unfoldable pub passed : Time → Decision → Duration → Handled
  unfolding set_rate_limit_headers
  passed now d waited = record {
    header = set_rate_limit_headers now d [];
    waited = waited;
    outcome = next_handler;
  }

  -- `gone` says whether the caller is gone before a wait is over.
  unfoldable pub delayed : Time → Bool → Decision → Handled
  unfolding passed capped_delay
  delayed now gone d =
      let wait = capped_delay d.delay_for in
      if ltb_ℤ (pos 0) wait
      then if gone
        then record { header = []; waited = wait; outcome = given_up }
        else passed now d wait
      else passed now d (pos 0)

  unfoldable pub enforce : Time → Bool → Result Decision → Handled
  unfolding is_refusal refused delayed passed
  enforce now gone (err why) = record {
    header = [];
    waited = pos 0;
    outcome = error_text 500 "rate limiter error";
  }
  enforce now gone (ok d) =
      if is_refusal d.action
      then refused now d
      else if is_delay d.action
      then delayed now gone d
      else passed now d (pos 0)

module _ {S : Type 0} (fl : FloatOps) (evaluate : RequestContext → Exec S Decision) where
  -- `Middleware.Handler`.
  unfoldable pub handler : Time → Bool → HttpCall → S → Handled × S
  unfolding enforce http_request
  handler now gone r s = let (d, s') = evaluate (http_request r) s in (enforce fl now gone d, s')

  checked : Time → Result Decision → Handled
  unfolding set_rate_limit_headers
  checked now (err why) = record {
    header = [];
    waited = pos 0;
    outcome = error_text 500 "{\"error\":\"rate limiter error\"}";
  }
  checked now (ok d) = record {
    header = set_rate_limit_headers fl now d [];
    waited = pos 0;
    outcome = decision_body d;
  }

  -- `CheckHandler`, on what the decoder answers.
  unfoldable pub check_handler : Time → Result RequestContext → S → Handled × S
  unfolding checked
  check_handler now (err why) s = (
    record {
      header = [];
      waited = pos 0;
      outcome = error_text 400 "{\"error\":\"invalid request\"}";
    },
    s,
  )
  check_handler now (ok req) s = let (d, s') = evaluate req s in (checked now d, s')
