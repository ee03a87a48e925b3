-- ===== src/Provider/Otel/Labels.antt =====
-- The labels of otel/processor.go's `ProcessBatch`.
use Prim.Native.Nat.{ℕ, zero, suc}
use mathlib.Core.Option
use rlaas.Base.{List, [], ◌∷◌, some, ◌≡◌, ◌∙◌, refl, ap, sym, arith, map}
use rlaas.Base.Workers.{get_elem?}
use rlaas.Provider.{TelemetryRecord, RecordDecision, log}
use rlaas.Provider.Otel.{
  LogRecord, SpanRecord, Processor, ProcessorStats, log_kept, label, result_of, process_batch,
  logs_of, spans_of, process_logs, process_spans,
}

log_kept-same :
    (logs : List LogRecord) (r r' : TelemetryRecord)
    → r.org_id ≡ r'.org_id
    → r.service ≡ r'.service
    → r.severity ≡ r'.severity
    → log_kept logs r ≡ log_kept logs r'
unfolding log_kept
log_kept-same [] r r' o v e = refl
log_kept-same (k ∷ ks) r r' o v e = cc (o, v, e, log_kept-same ks r r' o v e)

result_of-log :
    (logs : List LogRecord) (spans : List SpanRecord) (r : TelemetryRecord)
    → r.signal ≡ log
    → (result_of logs spans r).allowed ≡ log_kept logs r
unfolding result_of label
result_of-log logs spans r is_log = ground (arith, is_log)

result_of-same :
    (logs : List LogRecord) (spans : List SpanRecord) (r r' : TelemetryRecord)
    → r.signal ≡ log
    → r'.signal ≡ log
    → r.org_id ≡ r'.org_id
    → r.service ≡ r'.service
    → r.severity ≡ r'.severity
    → (result_of logs spans r).allowed ≡ (result_of logs spans r').allowed
unfolding result_of
result_of-same logs spans r r' is_log is_log' o v e =
    result_of-log logs spans r is_log
    ∙ log_kept-same logs r r' o v e
    ∙ sym (result_of-log logs spans r' is_log')

get_elem?-map :
    {A B : Type 0} (f : A → B) (xs : List A) (i : ℕ) (a : A)
    → get_elem? xs i ≡ some a
    → get_elem? (map f xs) i ≡ some (f a)
get_elem?-map f [] i a h = absurd (grind (arith, h))
get_elem?-map f (x ∷ xs) zero a h = ap (λ o. Option.map f o) h
get_elem?-map f (x ∷ xs) (suc i) a h = get_elem?-map f xs i a h

-- Two logs of one batch with the same organization, service and severity are both reported as allowed or both
-- as dropped, whatever the evaluator decided about each of them.
pub process_batch_blind :
    {S : Type 0} (p : Processor S) (log_order span_order : List ℕ) (records : List TelemetryRecord)
    (s : S × ProcessorStats) (i j : ℕ) (r r' : TelemetryRecord)
    → get_elem? records i ≡ some r
    → get_elem? records j ≡ some r'
    → r.signal ≡ log
    → r'.signal ≡ log
    → r.org_id ≡ r'.org_id
    → r.service ≡ r'.service
    → r.severity ≡ r'.severity
    → let results = (process_batch p log_order span_order records s).0 in
      (d : RecordDecision) × (d' : RecordDecision) × (get_elem? results i ≡ some d)
      × (get_elem? results j ≡ some d')
      × (d.allowed ≡ d'.allowed)
unfolding process_batch
process_batch_blind p log_order span_order records s i j r r' at_i at_j l l' o v e =
    let (logs, t) = process_logs p log_order (logs_of records) s in
    let (spans, u) = process_spans p span_order (spans_of records) t in
    (
      result_of logs spans r,
      result_of logs spans r',
      get_elem?-map (result_of logs spans) records i r at_i,
      get_elem?-map (result_of logs spans) records j r' at_j,
      result_of-same logs spans r r' l l' o v e,
    )
