-- ===== src/Provider/Otel.antt =====
-- internal/adapter/otel/hook.go and processor.go. The counters of a processor stand beside the evaluator's
-- state, as the workers change both.
pub mod Failures
pub mod Labels
use Prim.Native.Nat.{ℕ}
use rlaas.Base.{
  String, List, [], ◌∷◌, Bool, true, false, Option, none, some, ◌&&◌, ◌==◌, map, if◌then◌else◌,
}
use rlaas.Base.Lists.{length, replicate}
use rlaas.Base.Int.{pos}
use rlaas.Base.Int64.{Int64, ◌+w◌}
use rlaas.Base.Workers.{visit}
use rlaas.Model.{
  StringMap, RequestContext, zero_request, ActionType, allow, deny, drop, drop_low_priority,
  Decision, zero_decision,
}
use rlaas.Provider.{Evaluator, TelemetryRecord, RecordDecision, SignalKind, log, span}

pub record LogRecord : Type 0 where
  pub org_id : String
  pub service : String
  pub severity : String
  pub tags : StringMap
  pub body : String

pub record SpanRecord : Type 0 where
  pub org_id : String
  pub service : String
  pub name : String
  pub tags : StringMap

pub record ProcessorStats : Type 0 where
  pub allowed : Int64
  pub dropped : Int64
  pub errors : Int64

pub record Processor (S : Type 0) : Type 0 where
  pub eval : Evaluator S
  pub fail_open : Bool

-- The requests of `AllowLog` and `AllowSpan`.
unfoldable pub log_request : LogRecord → RequestContext
log_request l = record zero_request {
  org_id = l.org_id;
  service = l.service;
  severity = l.severity;
  signal_type = "log";
  operation = "otel_log";
  tags = l.tags;
}

unfoldable pub span_request : SpanRecord → RequestContext
span_request s = record zero_request {
  org_id = s.org_id;
  service = s.service;
  span_name = s.name;
  signal_type = "span";
  operation = "otel_span";
  tags = s.tags;
}

unfoldable pub count_allowed : ProcessorStats → ProcessorStats
count_allowed st = record st { allowed = st.allowed +w pos 1 }

unfoldable pub count_dropped : ProcessorStats → ProcessorStats
count_dropped st = record st { dropped = st.dropped +w pos 1 }

unfoldable pub count_error : ProcessorStats → ProcessorStats
count_error st = record st { errors = st.errors +w pos 1 }

-- The second test of a worker: is the record kept, and what is counted.
unfoldable pub by_decision : Decision → ProcessorStats → Bool × ProcessorStats
unfolding count_allowed count_dropped
by_decision d st = if d.allowed then (true, count_allowed st) else (false, count_dropped st)

-- What a worker makes of an answer.
unfoldable pub tally : Bool → Decision × Option String → ProcessorStats → Bool × ProcessorStats
unfolding by_decision count_error
tally fail_open (d, none) st = by_decision d st
tally fail_open (d, some why) st =
    if fail_open then by_decision d (count_error st) else (false, count_dropped (count_error st))

-- The items whose flag stands.
unfoldable pub keep_flagged : {A : Type 0} → List A → List Bool → List A
keep_flagged [] flags = []
keep_flagged (a ∷ rest) [] = []
keep_flagged (a ∷ rest) (b ∷ flags) =
    let others = keep_flagged rest flags in if b then a ∷ others else others

module _ {S : Type 0} (p : Processor S) where
  unfoldable pub work_on :
      {A : Type 0} → (A → RequestContext) → A → S × ProcessorStats → Bool × (S × ProcessorStats)
  unfolding tally
  work_on request a (s, st) =
      let (answer, s') = p.eval (request a) s in
      let (keep, st') = tally p.fail_open answer st in (keep, (s', st'))

  -- The body that `ProcessLogs` and `ProcessSpans` share; every flag stands at first.
  unfoldable pub process_with :
      {A : Type 0}
      → (A → RequestContext)
      → List ℕ
      → List A
      → S × ProcessorStats
      → List A × (S × ProcessorStats)
  unfolding visit work_on replicate keep_flagged
  process_with request order items s =
      let (keep, s') = visit (work_on request) items order (replicate (length items) true) s in
      (keep_flagged items keep, s')

  unfoldable pub process_logs :
      List ℕ → List LogRecord → S × ProcessorStats → List LogRecord × (S × ProcessorStats)
  unfolding process_with log_request
  process_logs order logs s = process_with log_request order logs s

  unfoldable pub process_spans :
      List ℕ → List SpanRecord → S × ProcessorStats → List SpanRecord × (S × ProcessorStats)
  unfolding process_with span_request
  process_spans order spans s = process_with span_request order spans s

-- `DecisionFilter`.
unfoldable pub decision_filter : Decision → Bool
decision_filter d =
    if d.allowed
    then elim d.action [ drop ↦ false | drop_low_priority ↦ false | deny ↦ false | _ ↦ true ]
    else false

-- The native records of a batch.
unfoldable pub as_log : TelemetryRecord → LogRecord
as_log r = record {
  org_id = r.org_id;
  service = r.service;
  severity = r.severity;
  tags = r.tags;
  body = "";
}

unfoldable pub as_span : TelemetryRecord → SpanRecord
as_span r = record { org_id = r.org_id; service = r.service; name = r.operation; tags = r.tags }

unfoldable pub logs_of : List TelemetryRecord → List LogRecord
unfolding as_log
logs_of [] = []
logs_of (r ∷ rs) = elim r.signal [ log ↦ as_log r ∷ logs_of rs | _ ↦ logs_of rs ]

unfoldable pub spans_of : List TelemetryRecord → List SpanRecord
unfolding as_span
spans_of [] = []
spans_of (r ∷ rs) = elim r.signal [ span ↦ as_span r ∷ spans_of rs | _ ↦ spans_of rs ]

-- The search for a kept record that looks the same.
unfoldable pub log_kept : List LogRecord → TelemetryRecord → Bool
log_kept [] r = false
log_kept (k ∷ ks) r =
    let rest = log_kept ks r in
    if (r.org_id == k.org_id) && (r.service == k.service) && (r.severity == k.severity)
    then true
    else rest

unfoldable pub span_kept : List SpanRecord → TelemetryRecord → Bool
span_kept [] r = false
span_kept (k ∷ ks) r =
    let rest = span_kept ks r in
    if (r.org_id == k.org_id) && (r.service == k.service) && (r.operation == k.name)
    then true
    else rest

unfoldable pub label : Bool → TelemetryRecord → RecordDecision
label true r = record {
  allowed = true;
  action = allow;
  reason = "allowed";
  source = r;
  raw = zero_decision;
}
label false r = record {
  allowed = false;
  action = drop;
  reason = "rate_limited";
  source = r;
  raw = zero_decision;
}

-- What stands at the place of a record in the end.
unfoldable pub result_of : List LogRecord → List SpanRecord → TelemetryRecord → RecordDecision
unfolding log_kept span_kept label
result_of logs spans r = elim r.signal [
  | log ↦ label (log_kept logs r) r
  | span ↦ label (span_kept spans r) r
  | _ ↦ record {
    allowed = true;
    action = allow;
    reason = "unsupported_signal";
    source = r;
    raw = zero_decision;
  }
]

unfoldable pub process_batch :
    {S : Type 0}
    → Processor S
    → List ℕ
    → List ℕ
    → List TelemetryRecord
    → S × ProcessorStats
    → List RecordDecision × (S × ProcessorStats)
unfolding process_logs process_spans logs_of spans_of result_of
process_batch p log_order span_order records s =
    let (logs, t) = process_logs p log_order (logs_of records) s in
    let (spans, u) = process_spans p span_order (spans_of records) t in
    (map (result_of logs spans) records, u)
