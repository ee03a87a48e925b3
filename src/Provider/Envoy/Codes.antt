-- ===== src/Provider/Envoy/Codes.antt =====
-- The codes that envoy/adapter.go answers with.
use Prim.Native.Nat.{ℕ}
use rlaas.Base.{
  String, List, [], ◌∷◌, Bool, true, false, ◌≡◌, ◌∙◌, refl, sym, ap, arith, map, if◌then◌else◌,
}
use rlaas.Base.Lists.{length}
use rlaas.Provider.{RecordDecision, BatchProcessor, process}
use rlaas.Provider.Batches.{Covers, process_aligned}
use rlaas.Provider.Envoy.{
  Descriptor, DescriptorStatus, RateLimitCode, limit_ok, over_limit, status_of, overall_of,
  descriptor_record, check_rate_limit,
}

-- A code is the one for too many requests.
unfoldable pub is_over : RateLimitCode → Bool
is_over over_limit = true
is_over _ = false

-- One of the descriptors is over its limit.
unfoldable pub any_over : List DescriptorStatus → Bool
unfolding is_over
any_over [] = false
any_over (st ∷ sts) = if is_over st.code then true else any_over sts

overall-over : (ds : List RecordDecision) → overall_of over_limit ds ≡ over_limit
unfolding overall_of
overall-over [] = refl
overall-over (d ∷ ds) = ground (arith, overall-over ds)

overall-any :
    (ds : List RecordDecision) → is_over (overall_of limit_ok ds) ≡ any_over (map status_of ds)
unfolding overall_of any_over status_of is_over
overall-any [] = refl
overall-any (d ∷ ds) = ground (arith, overall-over ds, overall-any ds)

length-map : {A B : Type 0} (f : A → B) (xs : List A) → length (map f xs) ≡ length xs
length-map f [] = refl
length-map f (x ∷ xs) = cc (length-map f xs)

-- Whatever the evaluator and the order of the workers, if they take every descriptor, the answer has a status
-- for each descriptor, and its overall code is the one for too many requests exactly if a status has that code.
pub check_rate_limit_codes :
    {S : Type 0} (lower : String → String) (bp : BatchProcessor S) (org_id : String)
    (order : List ℕ) (ds : List Descriptor) (s : S)
    → Covers (length (map (descriptor_record lower org_id) ds)) order
    → (length (check_rate_limit lower bp org_id order ds s).0.statuses ≡ length ds)
      × (is_over (check_rate_limit lower bp org_id order ds s).0.overall_code
          ≡ any_over (check_rate_limit lower bp org_id order ds s).0.statuses)
unfolding check_rate_limit is_over any_over
check_rate_limit_codes lower bp org_id order [] s covers = (refl, refl)
check_rate_limit_codes lower bp org_id order (d ∷ ds) s covers =
    let records = map (descriptor_record lower org_id) (d ∷ ds) in
    let decisions = (process bp order records s).0 in
    let aligned = process_aligned bp order records s covers in
    (
      length-map status_of decisions
          ∙ sym (length-map (λ x. x.source) decisions)
          ∙ ap length aligned
          ∙ length-map (descriptor_record lower org_id) (d ∷ ds),
      overall-any decisions,
    )
