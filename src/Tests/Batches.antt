-- ===== src/Tests/Batches.antt =====
-- Batches of telemetry records at concrete inputs.
use Prim.Native.Nat.{ℕ, zero, suc}
use rlaas.Base.{String, List, [], ◌∷◌, true, false, Option, none, some, ◌≡◌, refl, arith, map}
use rlaas.Base.Lists.{length}
use rlaas.Base.Workers.{get_elem?, mentions}
use rlaas.Base.Int.{pos}
use rlaas.Model.{Decision, zero_decision, RequestContext}
use rlaas.Provider.{TelemetryRecord, zero_record, log, RecordDecision, BatchProcessor, process}
use rlaas.Provider.Batches.{Covers, process_aligned}
use rlaas.Provider.Envoy.{Descriptor, check_rate_limit}
use rlaas.Provider.Envoy.Codes.{is_over, any_over, check_rate_limit_codes}
use rlaas.Provider.Otel.{Processor, ProcessorStats, LogRecord, process_logs, process_batch}
use rlaas.Provider.Otel.Failures.{Fails, process_logs_drops}
use rlaas.Provider.Otel.Labels.{process_batch_blind}

-- The second record is taken first.
abbrev swapped : List ℕ
swapped = 1 ∷ 0 ∷ []

both : Covers 2 swapped
unfolding mentions
both zero h = refl
both (suc zero) h = refl
both (suc (suc i)) h = absurd (omega (arith, h))

-- An evaluator that counts its calls and allows the first one only.
abbrev first_only : RequestContext → ℕ → (Decision × Option String) × ℕ
first_only req zero = ((record zero_decision { allowed = true }, none), 1)
first_only req (suc n) = ((zero_decision, none), suc (suc n))

abbrev processor : BatchProcessor ℕ
processor = record { eval = first_only; fail_open = true }

abbrev record_of : String → TelemetryRecord
record_of severity = record zero_record {
  signal = log;
  org_id = "acme";
  service = "orders";
  severity = severity;
}

abbrev batch : List TelemetryRecord
batch = record_of "INFO" ∷ record_of "ERROR" ∷ []

process_aligned_example : map (λ d. d.source) (process processor swapped batch 0).0 ≡ batch
process_aligned_example = process_aligned processor swapped batch 0 both

abbrev descriptor : String → Descriptor
descriptor value = record { entries = record { key = "service"; value = value } ∷ [] }

abbrev descriptors : List Descriptor
descriptors = descriptor "orders" ∷ descriptor "billing" ∷ []

abbrev same : String → String
same s = s

check_rate_limit_codes_example :
    (length (check_rate_limit same processor "acme" swapped descriptors 0).0.statuses ≡ 2)
    × (is_over (check_rate_limit same processor "acme" swapped descriptors 0).0.overall_code
        ≡ any_over (check_rate_limit same processor "acme" swapped descriptors 0).0.statuses)
check_rate_limit_codes_example =
    check_rate_limit_codes same processor "acme" swapped descriptors 0 both

-- An evaluator that always fails.
abbrev down : RequestContext → ℕ → (Decision × Option String) × ℕ
down req n = ((zero_decision, some "store is down"), n)

abbrev open_processor : Processor ℕ
open_processor = record { eval = down; fail_open = true }

abbrev no_stats : ProcessorStats
no_stats = record { allowed = pos 0; dropped = pos 0; errors = pos 0 }

abbrev log_of : String → LogRecord
log_of body = record {
  org_id = "acme";
  service = "orders";
  severity = "INFO";
  tags = [];
  body = body;
}

abbrev logs : List LogRecord
logs = log_of "first" ∷ log_of "second" ∷ []

fails : Fails open_processor
unfolding Fails
fails req n = (zero_decision, "store is down", refl, refl)

process_logs_drops_example : (process_logs open_processor swapped logs (0, no_stats)).0 ≡ []
process_logs_drops_example = process_logs_drops open_processor swapped logs (0, no_stats) fails both

abbrev counting : Processor ℕ
counting = record { eval = first_only; fail_open = false }

-- The two logs differ in their tags.
abbrev alike : List TelemetryRecord
alike = record_of "INFO" ∷ record (record_of "INFO") { tags = ("user", "u2") ∷ [] } ∷ []

process_batch_blind_example :
    (d : RecordDecision) × (d' : RecordDecision) × (get_elem?
        (process_batch counting swapped [] alike (0, no_stats)).0
        0
      ≡ some d)
    × (get_elem? (process_batch counting swapped [] alike (0, no_stats)).0 1 ≡ some d')
    × (d.allowed ≡ d'.allowed)
process_batch_blind_example =
    process_batch_blind counting swapped [] alike (0, no_stats) 0 1 _ _ refl refl refl refl refl
      refl refl
