-- ===== src/Provider.antt =====
-- pkg/provider/provider.go: the records of all telemetry providers, and the evaluation of a batch of them.
pub mod Registry
pub mod Datadog
pub mod Kafka
pub mod FluentBit
pub mod Envoy
pub mod Otel
pub mod Batches
use Prim.Native.Nat.{ℕ}
use rlaas.Base.{
  String, List, [], ◌∷◌, Bool, true, false, Option, none, some, ◌<>◌, map, if◌then◌else◌,
}
use rlaas.Base.Lists.{length, replicate}
use rlaas.Base.Workers.{visit}
use rlaas.Model.{
  StringMap, RequestContext, zero_request, ActionType, other, allow, deny, Decision, zero_decision,
}

pub data SignalKind : Type 0 where
  log span metric event http : SignalKind
  unknown : String → SignalKind

-- `string(r.Signal)`.
pub signal_text : SignalKind → String
signal_text log = "log"
signal_text span = "span"
signal_text metric = "metric"
signal_text event = "event"
signal_text http = "http"
signal_text (unknown s) = s

pub record TelemetryRecord : Type 0 where
  pub signal : SignalKind
  pub org_id : String
  pub service : String
  pub operation : String
  pub severity : String
  pub environment : String
  pub region : String
  pub endpoint : String
  pub method : String
  pub tags : StringMap

-- `provider.TelemetryRecord{}`.
abbrev pub zero_record : TelemetryRecord
zero_record = record {
  signal = unknown "";
  org_id = "";
  service = "";
  operation = "";
  severity = "";
  environment = "";
  region = "";
  endpoint = "";
  method = "";
  tags = [];
}

unfoldable pub to_request_context : TelemetryRecord → RequestContext
unfolding signal_text
to_request_context r = record zero_request {
  org_id = r.org_id;
  service = r.service;
  signal_type = signal_text r.signal;
  operation = r.operation;
  severity = r.severity;
  environment = r.environment;
  region = r.region;
  endpoint = r.endpoint;
  method = r.method;
  tags = r.tags;
}

pub record RecordDecision : Type 0 where
  pub allowed : Bool
  pub action : ActionType
  pub reason : String
  pub source : TelemetryRecord
  pub raw : Decision

-- The zero value, which `make` puts into each place.
abbrev pub zero_record_decision : RecordDecision
zero_record_decision = record {
  allowed = false;
  action = other "";
  reason = "";
  source = zero_record;
  raw = zero_decision;
}

-- An evaluator answers with a decision and an error, `none` if there is none.
abbrev pub Evaluator : Type 0 → Type 0
Evaluator S = RequestContext → S → (Decision × Option String) × S

-- What one answer comes to for a record.
unfoldable pub judge : Bool → TelemetryRecord → Decision × Option String → RecordDecision
judge fail_open rec (d, none) = record {
  allowed = d.allowed;
  action = d.action;
  reason = d.reason;
  source = rec;
  raw = d;
}
judge fail_open rec (d, some why) =
    if fail_open
    then record {
      allowed = true;
      action = allow;
      reason = "fail_open: " <> why;
      source = rec;
      raw = d;
    }
    else record {
      allowed = false;
      action = deny;
      reason = "fail_closed: " <> why;
      source = rec;
      raw = d;
    }

pub record BatchProcessor (S : Type 0) : Type 0 where
  pub eval : Evaluator S
  pub fail_open : Bool

-- `FilterAllowed`.
unfoldable pub filter_allowed : List RecordDecision → List TelemetryRecord
filter_allowed [] = []
filter_allowed (d ∷ ds) =
    let rest = filter_allowed ds in if d.allowed then d.source ∷ rest else rest

-- The loop of the adapters over the decisions: the native records whose decision allows them.
unfoldable pub keep_allowed : {A : Type 0} → List A → List RecordDecision → List A
keep_allowed [] ds = []
keep_allowed (a ∷ as_) [] = []
keep_allowed (a ∷ as_) (d ∷ ds) =
    let rest = keep_allowed as_ ds in if d.allowed then a ∷ rest else rest

module _ {S : Type 0} (bp : BatchProcessor S) where
  -- A worker's step on one record.
  unfoldable pub evaluate_record : TelemetryRecord → S → RecordDecision × S
  unfolding judge to_request_context
  evaluate_record rec s =
      let (answer, s') = bp.eval (to_request_context rec) s in (judge bp.fail_open rec answer, s')

  -- `order` is the order of the workers' calls.
  unfoldable pub process : List ℕ → List TelemetryRecord → S → List RecordDecision × S
  unfolding evaluate_record visit replicate
  process order records s =
      visit evaluate_record records order (replicate (length records) zero_record_decision) s

  -- What every adapter does: convert the native records, evaluate them, keep those that are allowed.
  unfoldable pub filter_with :
      {A : Type 0} → (A → TelemetryRecord) → List ℕ → List A → S → List A × S
  unfolding process keep_allowed
  filter_with convert order items s =
      let (ds, s') = process order (map convert items) s in (keep_allowed items ds, s')
