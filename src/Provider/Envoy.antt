-- ===== src/Provider/Envoy.antt =====
-- internal/adapter/envoy/adapter.go. `lower` is `strings.ToLower`.
pub mod Codes
use Prim.Native.Nat.{ℕ}
use rlaas.Base.{String, List, [], ◌∷◌, Bool, true, false, ◌||◌, ◌==◌, map, if◌then◌else◌}
use rlaas.Base.Int.{pos}
use rlaas.Base.Int64.{Int64}
use rlaas.Model.{StringMap}
use rlaas.Engine.Evaluator.{put_entry}
use rlaas.Provider.{TelemetryRecord, zero_record, http, RecordDecision, BatchProcessor, process}

pub record DescriptorEntry : Type 0 where
  pub key : String
  pub value : String

pub record Descriptor : Type 0 where
  pub entries : List DescriptorEntry

pub data RateLimitCode : Type 0 where
  limit_ok over_limit limit_unknown : RateLimitCode

-- `CurrentLimit` is never set.
pub record DescriptorStatus : Type 0 where
  pub code : RateLimitCode
  pub limit_remaining : Int64

pub record RateLimitResponse : Type 0 where
  pub overall_code : RateLimitCode
  pub statuses : List DescriptorStatus

pub record AuthRequest : Type 0 where
  pub method : String
  pub path : String
  pub headers : StringMap
  pub source_ip : String
  pub service : String

pub record AuthResponse : Type 0 where
  pub allowed : Bool
  pub status_code : ℕ
  pub headers : StringMap
  pub reason : String

module _ (lower : String → String) where
  -- The body of the loop over a descriptor's entries.
  unfoldable pub read_entry : DescriptorEntry → TelemetryRecord → TelemetryRecord
  unfolding put_entry
  read_entry e r =
      let name = lower e.key in
      let tagged = record r { tags = put_entry e.key e.value r.tags } in
      if (name == "service") || (name == "destination_cluster")
      then record tagged { service = e.value }
      else if (name == "path") || (name == "request_path")
      then record tagged { endpoint = e.value }
      else if (name == "method") || (name == "request_method")
      then record tagged { method = e.value }
      else tagged

  unfoldable pub read_entries : List DescriptorEntry → TelemetryRecord → TelemetryRecord
  unfolding read_entry
  read_entries [] r = r
  read_entries (e ∷ es) r = read_entries es (read_entry e r)

  unfoldable pub descriptor_record : String → Descriptor → TelemetryRecord
  unfolding read_entries
  descriptor_record org_id d =
      read_entries d.entries (record zero_record { signal = http; org_id = org_id })

-- The status of one descriptor.
unfoldable pub status_of : RecordDecision → DescriptorStatus
status_of d =
    if d.allowed
    then record { code = limit_ok; limit_remaining = d.raw.remaining }
    else record { code = over_limit; limit_remaining = pos 0 }

-- The loop over the decisions.
unfoldable pub overall_of : RateLimitCode → List RecordDecision → RateLimitCode
overall_of code [] = code
overall_of code (d ∷ ds) = overall_of (if d.allowed then code else over_limit) ds

module _ {S : Type 0} (lower : String → String) (bp : BatchProcessor S) (org_id : String) where
  unfoldable pub check_rate_limit : List ℕ → List Descriptor → S → RateLimitResponse × S
  unfolding descriptor_record process status_of overall_of
  check_rate_limit order [] s = (record { overall_code = limit_ok; statuses = [] }, s)
  check_rate_limit order (d ∷ ds) s =
      let (decisions, s') = process bp order (map (descriptor_record lower org_id) (d ∷ ds)) s in
      (
        record { overall_code = overall_of limit_ok decisions; statuses = map status_of decisions },
        s',
      )

-- What `CheckAuth` does with the decisions.
unfoldable pub auth_response : List RecordDecision → AuthResponse
auth_response [] = record { allowed = true; status_code = 200; headers = []; reason = "allowed" }
auth_response (d ∷ ds) =
    if d.allowed
    then record { allowed = true; status_code = 200; headers = []; reason = "allowed" }
    else record {
      allowed = false;
      status_code = 429;
      headers = ("x-rlaas-reason", d.reason) ∷ [];
      reason = d.reason;
    }

unfoldable pub auth_record : String → AuthRequest → TelemetryRecord
auth_record org_id req = record zero_record {
  signal = http;
  org_id = org_id;
  service = req.service;
  endpoint = req.path;
  method = req.method;
  tags = req.headers;
}

unfoldable pub check_auth :
    {S : Type 0} → BatchProcessor S → String → AuthRequest → S → AuthResponse × S
unfolding process auth_record auth_response
check_auth bp org_id req s =
    let (decisions, s') = process bp (0 ∷ []) (auth_record org_id req ∷ []) s in
    (auth_response decisions, s')
