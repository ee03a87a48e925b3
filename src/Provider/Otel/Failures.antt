-- ===== src/Provider/Otel/Failures.antt =====
-- What otel/processor.go makes of evaluations that fail.
use Prim.Native.Nat.{ℕ}
use rlaas.Base.{String, List, [], ◌∷◌, Bool, true, false, some, ◌≡◌, refl, sym, arith}
use rlaas.Base.Lists.{length, replicate, length-replicate}
use rlaas.Base.Workers.{Matched, visit, visit-Matched}
use rlaas.Model.{RequestContext, Decision}
use rlaas.Provider.Batches.{Covers}
use rlaas.Provider.Otel.{
  Processor, ProcessorStats, LogRecord, log_request, by_decision, tally, work_on, keep_flagged,
  process_with, process_logs,
}

tally-failed :
    (fail_open : Bool) (d : Decision) (why : String) (st : ProcessorStats)
    → d.allowed ≡ false
    → (tally fail_open (d, some why) st).0 ≡ false
unfolding tally by_decision
tally-failed true d why st h = ground (arith, h)
tally-failed false d why st h = refl

keep_flagged-none :
    {A : Type 0} (items : List A) (flags : List Bool)
    → Matched (λ a b. b ≡ false) items flags
    → keep_flagged items flags ≡ []
unfolding keep_flagged
keep_flagged-none [] flags m = refl
keep_flagged-none (a ∷ rest) [] m = refl
keep_flagged-none (a ∷ rest) (b ∷ flags) m = rw (m.0) (keep_flagged-none rest flags m.1)

-- An evaluation failed, with a decision that does not allow.
unfoldable pub Fails : {S : Type 0} → Processor S → Type 0
Fails {S} p =
    (req : RequestContext) (s : S)
    → (d : Decision) × (why : String) × ((p.eval req s).0 ≡ (d, some why)) × (d.allowed ≡ false)

-- If every evaluation fails with a decision that does not allow, as a zero decision does not, no log is kept,
-- also by a processor that is set to fail open.
pub process_logs_drops :
    {S : Type 0} (p : Processor S) (order : List ℕ) (logs : List LogRecord) (s : S × ProcessorStats)
    → Fails p
    → Covers (length logs) order
    → (process_logs p order logs s).0 ≡ []
unfolding process_logs process_with Fails
process_logs_drops p order logs s fails covers =
    keep_flagged-none logs
      (visit (work_on p log_request) logs order (replicate (length logs) true) s).0
      (visit-Matched (work_on p log_request) logs (λ a b. b ≡ false)
        (λ l t.
          let (d, why, failed, denied) = fails (log_request l) t.0 in
          unfold work_on in rw failed (tally-failed p.fail_open d why t.1 denied))
        order (replicate (length logs) true) s (sym (length-replicate (length logs) true)) covers)
