-- ===== src/Store/Breaker/Cycle.antt =====
-- A whole cycle of the circuit breaker of redis/store.go.
use Prim.Native.Nat.{ℕ, zero, suc, ◌+◌, ◌<◌, ◌^◌}
use rlaas.Base.{
  List, [], ◌∷◌, true, ◌≡◌, ◌∙◌, refl, ap, arith, Bool-cases, inl, inr, ◌⊎◌, if◌then◌else◌, leb,
}
use rlaas.Base.Lists.{length, replicate}
use rlaas.Base.Int.{pos, leb_ℤ, ltb_ℤ, ◌+ℤ◌}
use rlaas.Base.Int64.{Int64, ◌+w◌, ◌-w◌, wrap64, of_bits}
use rlaas.Base.Time.{Time, Duration, unix_nano}
use rlaas.Store.Breaker.{
  closed, open_, half_open, CircuitBreaker, new_breaker, probe_when_due, allow_call,
  probe_succeeded, record_success, call_failed, record_failure,
}
use rlaas.Store.Breaker.Trips.{
  Event, asks, succeeds, fails, after_event, after_events, asks-open, succeeds-half_open,
  fails-closed, fails-open,
}

up : (n : ℕ) → suc n < 2 ^ 63 → pos n +w pos 1 ≡ pos (suc n)
unfolding ◌+w◌ wrap64 of_bits ◌+ℤ◌
up n h = ground arith

-- The events of failures at some times.
unfoldable pub failures_at : List Time → List Event
failures_at [] = []
failures_at (t ∷ ts) = fails t ∷ failures_at ts

stays_open :
    (ts : List Time) (cb : CircuitBreaker)
    → cb.state ≡ open_
    → (after_events (failures_at ts) cb).state ≡ open_
unfolding after_events failures_at after_event
stays_open [] cb at = at
stays_open (t ∷ ts) cb at =
    stays_open ts (record_failure t cb) (ap (λ x. x.state) (fails-open t cb at) ∙ at)

call_failed-cases :
    (t : Time) (cb : CircuitBreaker) (f n : ℕ)
    → cb.state ≡ closed
    → cb.failures ≡ pos f
    → cb.threshold ≡ pos n
    → f < n
    → n < 2 ^ 63
    → (((call_failed t cb).state ≡ open_) × (n ≡ suc f))
      ⊎ (((call_failed t cb).state ≡ closed)
          × ((call_failed t cb).failures ≡ pos (suc f))
          × ((call_failed t cb).threshold ≡ pos n)
          × (suc f < n))
unfolding call_failed
call_failed-cases t cb f n at count limit low small =
    let sum : cb.failures +w pos 1 ≡ pos (suc f) =
      ap (λ x. x +w pos 1) count ∙ up f (omega arith) in
    elim (Bool-cases (leb_ℤ cb.threshold (cb.failures +w pos 1))) [
      | inl trip ↦ rw trip (inl (refl, grind (arith, trip, sum, limit)))
      | inr quiet ↦ rw quiet (inr (at, sum, limit, grind (arith, quiet, sum, limit)))
    ]

one_failure :
    (t : Time) (cb : CircuitBreaker) (f n : ℕ)
    → cb.state ≡ closed
    → cb.failures ≡ pos f
    → cb.threshold ≡ pos n
    → f < n
    → n < 2 ^ 63
    → (((record_failure t cb).state ≡ open_) × (n ≡ suc f))
      ⊎ (((record_failure t cb).state ≡ closed)
          × ((record_failure t cb).failures ≡ pos (suc f))
          × ((record_failure t cb).threshold ≡ pos n)
          × (suc f < n))
one_failure t cb f n at count limit low small =
    let step = fails-closed t cb at in
    elim (call_failed-cases t cb f n at count limit low small) [
      | inl (opened, reached) ↦ inl (ap (λ x. x.state) step ∙ opened, reached)
      | inr (still, more, same, room) ↦ inr (
        ap (λ x. x.state) step ∙ still,
        ap (λ x. x.failures) step ∙ more,
        ap (λ x. x.threshold) step ∙ same,
        room,
      )
    ]

counts_up :
    (ts : List Time) (cb : CircuitBreaker) (f n : ℕ)
    → cb.state ≡ closed
    → cb.failures ≡ pos f
    → cb.threshold ≡ pos n
    → f < n
    → n < 2 ^ 63
    → (after_events (failures_at ts) cb).state ≡ (if leb n (f + length ts) then open_ else closed)
unfolding after_events failures_at after_event
counts_up [] cb f n at count limit low small = at ∙ ground arith
counts_up (t ∷ ts) cb f n at count limit low small =
    elim (one_failure t cb f n at count limit low small) [
      | inl (opened, reached) ↦ stays_open ts (record_failure t cb) opened ∙ ground arith
      | inr (still, more, same, room) ↦
          counts_up ts (record_failure t cb) (suc f) n still more same room small ∙ ground arith
    ]

-- A new breaker with a positive threshold stays closed through as many failures in a row as are fewer than
-- the threshold, and is open from the one on that reaches it.
pub trips_at_threshold :
    (n : ℕ) (wait : Duration) (max_probe : Int64) (ts : List Time)
    → 0 < n
    → n < 2 ^ 63
    → (after_events (failures_at ts) (new_breaker (pos n) wait max_probe)).state
      ≡ (if leb n (length ts) then open_ else closed)
trips_at_threshold n wait max_probe ts some small =
    counts_up ts (new_breaker (pos n) wait max_probe) 0 n (unfold new_breaker in refl)
      (unfold new_breaker in refl) (unfold new_breaker in refl) some small
    ∙ ap (λ k. if leb n k then open_ else closed) (omega arith)

one_probe :
    (cb : CircuitBreaker) (p n : ℕ)
    → cb.state ≡ half_open
    → cb.probe_count ≡ pos p
    → cb.max_probe ≡ pos n
    → p < n
    → n < 2 ^ 63
    → (((probe_succeeded cb).state ≡ closed)
        × ((probe_succeeded cb).failures ≡ pos 0)
        × (n ≡ suc p))
      ⊎ (((probe_succeeded cb).state ≡ half_open)
          × ((probe_succeeded cb).probe_count ≡ pos (suc p))
          × ((probe_succeeded cb).max_probe ≡ pos n)
          × (suc p < n))
unfolding probe_succeeded
one_probe cb p n at count limit low small =
    let sum : cb.probe_count +w pos 1 ≡ pos (suc p) =
      ap (λ x. x +w pos 1) count ∙ up p (omega arith) in
    elim (Bool-cases (leb_ℤ cb.max_probe (cb.probe_count +w pos 1))) [
      | inl done ↦ rw done (inl (refl, refl, grind (arith, done, sum, limit)))
      | inr more ↦ rw more (inr (at, sum, limit, grind (arith, more, sum, limit)))
    ]

probes_close :
    (k : ℕ) (cb : CircuitBreaker) (p n : ℕ)
    → cb.state ≡ half_open
    → cb.probe_count ≡ pos p
    → cb.max_probe ≡ pos n
    → p + suc k ≡ n
    → n < 2 ^ 63
    → ((after_events (replicate (suc k) succeeds) cb).state ≡ closed)
      × ((after_events (replicate (suc k) succeeds) cb).failures ≡ pos 0)
unfolding after_events after_event replicate
probes_close zero cb p n at count limit sum small =
    let step = succeeds-half_open (pos 0) cb at in
    elim (one_probe cb p n at count limit (omega arith) small) [
      | inl (done, reset, reached) ↦
          (ap (λ x. x.state) step ∙ done, ap (λ x. x.failures) step ∙ reset)
      | inr (still, more, same, room) ↦ absurd (omega (arith, sum, room))
    ]
probes_close (suc k) cb p n at count limit sum small =
    let step = succeeds-half_open (pos 0) cb at in
    elim (one_probe cb p n at count limit (omega arith) small) [
      | inl (done, reset, reached) ↦ absurd (omega (arith, sum, reached))
      | inr (still, more, same, room) ↦
          probes_close k (record_success cb) (suc p) n (ap (λ x. x.state) step ∙ still)
            (ap (λ x. x.probe_count) step ∙ more) (ap (λ x. x.max_probe) step ∙ same)
            (omega (arith, sum)) small
    ]

-- An open breaker whose waiting time is over is asked, and lets the call through; after as many successes as
-- its limit of probes it is closed again, with no failure counted.
pub recovers :
    (now : Time) (cb : CircuitBreaker) (n : ℕ)
    → cb.state ≡ open_
    → ltb_ℤ cb.half_open_after (unix_nano now -w cb.opened_at) ≡ true
    → cb.max_probe ≡ pos (suc n)
    → suc n < 2 ^ 63
    → let after = after_events (asks now ∷ replicate (suc n) succeeds) cb in
      ((allow_call now cb).0 ≡ true) × (after.state ≡ closed) × (after.failures ≡ pos 0)
unfolding after_events after_event
recovers now cb n at due limit small =
    let step = asks-open now cb at in
    let probing : probe_when_due now cb
        ≡ (true, record cb { state = half_open; probe_count = pos 0 }) =
      unfold probe_when_due in rw due refl in
    let asked = step ∙ probing in
    let (shut, reset) =
      probes_close n (allow_call now cb).1 0 (suc n) (ap (λ x. x.1.state) asked)
        (ap (λ x. x.1.probe_count) asked) (ap (λ x. x.1.max_probe) asked ∙ limit) (omega arith)
        small in
    (ap (λ x. x.0) asked, shut, reset)
