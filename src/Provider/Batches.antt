-- ===== src/Provider/Batches.antt =====
-- What does not depend on the workers of a batch.
use Prim.Native.Nat.{ℕ, ◌<◌}
use rlaas.Base.{String, List, [], ◌∷◌, Bool, true, false, Option, ◌≡◌, ◌∙◌, refl, sym, ap, map}
use rlaas.Base.Lists.{length, replicate, length-replicate, keep_if}
use rlaas.Base.Workers.{mentions, Matched, visit-Matched, Matched-map}
use rlaas.Model.{RequestContext, Decision}
use rlaas.Provider.{
  TelemetryRecord, RecordDecision, BatchProcessor, zero_record_decision, evaluate_record, judge,
  to_request_context, process, keep_allowed, filter_with,
}

-- Every record of the batch is taken from the channel.
abbrev pub Covers : ℕ → List ℕ → Type 0
Covers n order = (i : ℕ) → i < n → mentions i order ≡ true

module _ {S : Type 0} (bp : BatchProcessor S) (P : TelemetryRecord → RecordDecision → Type 0) where
  process-Matched :
      (order : List ℕ) (records : List TelemetryRecord) (s : S)
      → ((rec : TelemetryRecord) (t : S) → P rec (evaluate_record bp rec t).0)
      → Covers (length records) order
      → Matched P records (process bp order records s).0
  unfolding process
  process-Matched order records s right covers =
      visit-Matched (evaluate_record bp) records P right order
        (replicate (length records) zero_record_decision) s
        (sym (length-replicate (length records) zero_record_decision)) covers

judge-source :
    (fail_open : Bool) (rec : TelemetryRecord) (answer : Decision × Option String)
    → (judge fail_open rec answer).source ≡ rec
unfolding judge
judge-source fail_open rec (d, Option.none) = refl
judge-source true rec (d, Option.some why) = refl
judge-source false rec (d, Option.some why) = refl

sources-map :
    (records : List TelemetryRecord) (ds : List RecordDecision)
    → Matched (λ rec d. d.source ≡ rec) records ds
    → map (λ d. d.source) ds ≡ records
sources-map [] [] m = refl
sources-map [] (d ∷ ds) m = elim m [ ]
sources-map (r ∷ rs) [] m = elim m [ ]
sources-map (r ∷ rs) (d ∷ ds) m = cc (m.0, sources-map rs ds m.1)

-- Whatever the evaluator does and in whatever order the workers call it, if they take every record the batch
-- has a decision for each record, in the records' order.
pub process_aligned :
    {S : Type 0} (bp : BatchProcessor S) (order : List ℕ) (records : List TelemetryRecord) (s : S)
    → Covers (length records) order
    → map (λ d. d.source) (process bp order records s).0 ≡ records
process_aligned bp order records s covers = sources-map records (process bp order records s).0 (
    process-Matched bp (λ rec d. d.source ≡ rec) order records s
      (λ rec t.
        unfold evaluate_record in
        judge-source bp.fail_open rec (bp.eval (to_request_context rec) t).0)
      covers)

keep_allowed-map :
    {A : Type 0} (verdict : A → RecordDecision) (items : List A)
    → keep_allowed items (map verdict items) ≡ keep_if (λ a. (verdict a).allowed) items
unfolding keep_allowed keep_if
keep_allowed-map verdict [] = refl
keep_allowed-map verdict (a ∷ rest) = cc (keep_allowed-map verdict rest)

map-map :
    {A B C : Type 0} (f : A → B) (g : B → C) (items : List A)
    → map g (map f items) ≡ map (λ a. g (f a)) items
map-map f g [] = refl
map-map f g (a ∷ rest) = cc (map-map f g rest)

-- If the evaluator's answer to a request does not depend on what it has answered before, the workers keep
-- exactly what a walk over the batch would keep, in the same order, however their calls interleave.
pub filter_as_walk :
    {S A : Type 0} (bp : BatchProcessor S) (convert : A → TelemetryRecord) (order : List ℕ)
    (items : List A) (s : S) (verdict : RequestContext → Decision × Option String)
    → ((req : RequestContext) (t : S) → (bp.eval req t).0 ≡ verdict req)
    → Covers (length (map convert items)) order
    → (filter_with bp convert order items s).0
      ≡ keep_if
          (λ a. (judge bp.fail_open (convert a) (verdict (to_request_context (convert a)))).allowed)
          items
unfolding filter_with
filter_as_walk bp convert order items s verdict steady covers =
    let one =
      λ (rec : TelemetryRecord). judge bp.fail_open rec (verdict (to_request_context rec)) in
    let all : (process bp order (map convert items) s).0 ≡ map one (map convert items) =
      Matched-map one (map convert items) (process bp order (map convert items) s).0 (
        process-Matched bp (λ rec d. d ≡ one rec) order (map convert items) s
          (λ rec t.
            unfold evaluate_record in
            ap (judge bp.fail_open rec) (steady (to_request_context rec) t))
          covers) in
    ap (keep_allowed items) (all ∙ map-map convert one items)
    ∙ keep_allowed-map (λ a. one (convert a)) items
