-- ===== src/Tests/Records.antt =====
-- The recorder and the audit log at concrete events.
use Prim.Native.Nat.{◌<◌}
use rlaas.Base.{String, List, [], ◌∷◌, Bool, ◌≡◌, true, false, refl, arith}
use rlaas.Base.Lists.{length}
use rlaas.Base.Int.{pos}
use rlaas.Model.{StringMap}
use rlaas.Analytics.Recorder.{new_recorder, count_of, max_analytics_keys}
use rlaas.Analytics.Recorder.Counts.{record_all, times, record_all-exact}
use rlaas.Analytics.Audit.{
  DecisionRecord, Phase, AsyncLogger, new_async, draining, finished, accept, stop, notice, drain,
  Reach, here, next, hand_over, enqueue, Step, finish,
}
use rlaas.Analytics.Audit.Steps.{IsKept, Reach-IsKept}
use rlaas.Analytics.Audit.Drain.{ends_empty, drains_to_end}
use rlaas.Analytics.Audit.Late.{late_records_lost}
use rlaas.Tests.Samples.{noon}

abbrev history : List (String × StringMap)
history = ("check", []) ∷ ("deny", ("policy_id", "p1") ∷ []) ∷ ("check", []) ∷ []

few : length (record_all history new_recorder).event_count < max_analytics_keys
unfolding record_all
few = omega arith

record_all-exact_example :
    count_of "check" (record_all history new_recorder).event_count ≡ pos (times "check" history)
record_all-exact_example = record_all-exact "check" history (omega arith) few

abbrev rec : DecisionRecord
rec = record {
  timestamp = noon;
  request_id = "r1";
  tenant_id = "acme";
  policy_id = "p1";
  action = "deny";
  allowed = false;
  reason = "";
  source_ip = "";
  endpoint = "/v1/orders";
  latency_us = pos 12;
  tags = [];
}

abbrev logger :
    List DecisionRecord → Bool → Phase → List DecisionRecord → List DecisionRecord → AsyncLogger
logger buffer stopping phase handed accepted = record {
  capacity = 4;
  buffer = buffer;
  stopping = stopping;
  phase = phase;
  handed = handed;
  accepted = accepted;
}

-- A record is accepted, the logger is closed, and the goroutine notices it and drains the buffer.
drained : Reach (new_async (pos 4)) (logger [] true draining (rec ∷ []) (rec ∷ []))
unfolding new_async enqueue hand_over
drained =
    next (next (next (next here (accept rec (omega arith))) (stop refl)) (notice refl refl))
      (drain rec [] refl refl)

Reach-IsKept_example : IsKept (logger [] true draining (rec ∷ []) (rec ∷ []))
Reach-IsKept_example = Reach-IsKept (pos 4) drained

-- With a record left in the buffer.
unfinished : Reach (new_async (pos 4)) (logger (rec ∷ []) true draining [] (rec ∷ []))
unfolding new_async enqueue
unfinished = next (next (next here (accept rec (omega arith))) (stop refl)) (notice refl refl)

ends_empty_example :
    (logger [] true finished (rec ∷ []) (rec ∷ [])).handed
    ≡ (logger [] true finished (rec ∷ []) (rec ∷ [])).accepted
ends_empty_example =
    ends_empty (pos 4) {a = logger [] true draining (rec ∷ []) (rec ∷ [])}
      {b = logger [] true finished (rec ∷ []) (rec ∷ [])} drained (finish refl refl) refl refl

drains_to_end_example :
    (b : AsyncLogger) × Reach (logger (rec ∷ []) true draining [] (rec ∷ [])) b
    × (b.phase ≡ finished)
    × (b.handed ≡ rec ∷ [])
    × (b.accepted ≡ rec ∷ [])
drains_to_end_example =
    drains_to_end (pos 4) {a = logger (rec ∷ []) true draining [] (rec ∷ [])} unfinished refl

ended : Reach (new_async (pos 4)) (logger [] true finished (rec ∷ []) (rec ∷ []))
ended = next drained (finish refl refl)

-- `Log` is called twice after that.
late :
    Reach
      (enqueue rec (logger [] true finished (rec ∷ []) (rec ∷ [])))
      (enqueue rec (enqueue rec (logger [] true finished (rec ∷ []) (rec ∷ []))))
late = next here (accept rec (unfold enqueue in omega arith))

late_records_lost_example :
    let a = logger [] true finished (rec ∷ []) (rec ∷ []) in
    let b = enqueue rec (enqueue rec a) in
    Step a (enqueue rec a) × (b.handed ≡ a.handed) × (length b.handed < length b.accepted)
late_records_lost_example =
    late_records_lost (pos 4) rec {a = logger [] true finished (rec ∷ []) (rec ∷ [])}
      {b = enqueue rec (enqueue rec (logger [] true finished (rec ∷ []) (rec ∷ [])))} ended refl
      (omega arith) late
