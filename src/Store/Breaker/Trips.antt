-- ===== src/Store/Breaker/Trips.antt =====
-- When the circuit breaker of redis/store.go opens and closes.
use mathlib.Core.Path.{subst, sym, ap}
use rlaas.Base.{◌⊎◌, List, [], ◌∷◌, true, false, ◌≡◌, ◌∙◌, refl, arith, Bool-cases, inl, inr}
use rlaas.Base.Int.{pos, negsuc, leb_ℤ, ltb_ℤ, ◌≤ℤ◌, ◌<ℤ◌, ◌+ℤ◌}
use rlaas.Base.Int64.{Int64, InRange, ◌+w◌, ◌-w◌, wrap64, of_bits}
use rlaas.Base.Time.{Time, Duration, unix_nano}
use rlaas.Store.Breaker.{
  BreakerState, closed, open_, half_open, CircuitBreaker, new_breaker, probe_when_due, allow_call,
  probe_succeeded, record_success, call_failed, record_failure,
}

-- Calls of the breaker by any number of clients, one after the other.
pub data Event : Type 0 where
  asks : Time → Event
  succeeds : Event
  fails : Time → Event

unfoldable pub after_event : Event → CircuitBreaker → CircuitBreaker
after_event (asks now) cb = (allow_call now cb).1
after_event succeeds cb = record_success cb
after_event (fails now) cb = record_failure now cb

unfoldable pub after_events : List Event → CircuitBreaker → CircuitBreaker
unfolding after_event
after_events [] cb = cb
after_events (e ∷ es) cb = after_events es (after_event e cb)

-- The count that a state goes by lies below its threshold.
abbrev pub Counts : BreakerState → CircuitBreaker → Type 0
Counts closed cb = (pos 0 ≤ℤ cb.failures) × (cb.failures <ℤ cb.threshold)
Counts open_ cb = Unit
Counts half_open cb = (pos 0 ≤ℤ cb.probe_count) × (cb.probe_count <ℤ cb.max_probe)

pub record IsSound (cb : CircuitBreaker) : Type 0 where
  pub trips : (pos 0 <ℤ cb.threshold) × InRange cb.threshold
  pub probes : (pos 0 <ℤ cb.max_probe) × InRange cb.max_probe
  pub counts : Counts cb.state cb

one_more :
    (a b : Int64)
    → InRange b
    → pos 0 ≤ℤ a
    → a <ℤ b
    → (pos 0 ≤ℤ (a +w pos 1)) × ((leb_ℤ b (a +w pos 1) ≡ false) → (a +w pos 1) <ℤ b)
unfolding ◌+w◌ wrap64 of_bits ◌+ℤ◌
one_more (pos n) b r h l = ground arith
one_more (negsuc n) b r h l = absurd (omega arith)

state_cases : (st : BreakerState) → (st ≡ closed) ⊎ ((st ≡ open_) ⊎ (st ≡ half_open))
state_cases closed = inl refl
state_cases open_ = inr (inl refl)
state_cases half_open = inr (inr refl)

call_failed-IsSound :
    (now : Time) (cb : CircuitBreaker)
    → cb.state ≡ closed
    → IsSound cb
    → IsSound (call_failed now cb)
unfolding call_failed
call_failed-IsSound now cb at v =
    let (low, high) = subst (λ st. Counts st cb) at v.counts in
    let (low', high') = one_more cb.failures cb.threshold v.trips.1 low high in
    elim (Bool-cases (leb_ℤ cb.threshold (cb.failures +w pos 1))) [
      | inl trip ↦ rw trip (record { trips = v.trips; probes = v.probes; counts = tt })
      | inr quiet ↦
          rw (quiet, at)
            (record { trips = v.trips; probes = v.probes; counts = (low', high' quiet) })
    ]

probe_succeeded-IsSound :
    (cb : CircuitBreaker) → cb.state ≡ half_open → IsSound cb → IsSound (probe_succeeded cb)
unfolding probe_succeeded
probe_succeeded-IsSound cb at v =
    let (low, high) = subst (λ st. Counts st cb) at v.counts in
    let (low', high') = one_more cb.probe_count cb.max_probe v.probes.1 low high in
    elim (Bool-cases (leb_ℤ cb.max_probe (cb.probe_count +w pos 1))) [
      | inl done ↦
          rw done (record { trips = v.trips; probes = v.probes; counts = (omega arith, v.trips.0) })
      | inr more ↦
          rw (more, at) (record { trips = v.trips; probes = v.probes; counts = (low', high' more) })
    ]

probe_when_due-IsSound :
    (now : Time) (cb : CircuitBreaker)
    → cb.state ≡ open_
    → IsSound cb
    → IsSound (probe_when_due now cb).1
unfolding probe_when_due
probe_when_due-IsSound now cb at v =
    elim (Bool-cases (ltb_ℤ cb.half_open_after (unix_nano now -w cb.opened_at))) [
      | inl due ↦
          rw due (record { trips = v.trips; probes = v.probes; counts = (omega arith, v.probes.0) })
      | inr early ↦ rw early v
    ]

-- By the state, what a call does.
module _ (now : Time) (cb : CircuitBreaker) where
  asks-closed : cb.state ≡ closed → allow_call now cb ≡ (true, cb)
  unfolding allow_call
  asks-closed at = ground (arith, at)

  pub asks-open : cb.state ≡ open_ → allow_call now cb ≡ probe_when_due now cb
  unfolding allow_call
  asks-open at = ground (arith, at)

  asks-half_open :
      cb.state ≡ half_open → allow_call now cb ≡ (ltb_ℤ cb.probe_count cb.max_probe, cb)
  unfolding allow_call
  asks-half_open at = ground (arith, at)

  succeeds-closed : cb.state ≡ closed → record_success cb ≡ record cb { failures = pos 0 }
  unfolding record_success
  succeeds-closed at = ground (arith, at)

  succeeds-open : cb.state ≡ open_ → record_success cb ≡ cb
  unfolding record_success
  succeeds-open at = ground (arith, at)

  pub succeeds-half_open : cb.state ≡ half_open → record_success cb ≡ probe_succeeded cb
  unfolding record_success
  succeeds-half_open at = ground (arith, at)

  pub fails-closed : cb.state ≡ closed → record_failure now cb ≡ call_failed now cb
  unfolding record_failure
  fails-closed at = ground (arith, at)

  pub fails-open : cb.state ≡ open_ → record_failure now cb ≡ cb
  unfolding record_failure
  fails-open at = ground (arith, at)

  fails-half_open :
      cb.state ≡ half_open
      → record_failure now cb
        ≡ record cb { state = open_; opened_at = unix_nano now; probe_count = pos 0 }
  unfolding record_failure
  fails-half_open at = ground (arith, at)

IsSound-of : (cb cb' : CircuitBreaker) → cb ≡ cb' → IsSound cb' → IsSound cb
IsSound-of cb cb' e v = subst IsSound (sym e) v

event-IsSound : (e : Event) (cb : CircuitBreaker) → IsSound cb → IsSound (after_event e cb)
unfolding after_event
event-IsSound (asks now) cb v = elim (state_cases cb.state) [
  | inl at ↦ IsSound-of (allow_call now cb).1 cb (ap (λ x. x.1) (asks-closed now cb at)) v
  | inr (inl at) ↦
      IsSound-of (allow_call now cb).1 _ (ap (λ x. x.1) (asks-open now cb at))
        (probe_when_due-IsSound now cb at v)
  | inr (inr at) ↦ IsSound-of (allow_call now cb).1 cb (ap (λ x. x.1) (asks-half_open now cb at)) v
]
event-IsSound succeeds cb v = elim (state_cases cb.state) [
  | inl at ↦ IsSound-of (record_success cb) _ (succeeds-closed (pos 0) cb at) (record {
    trips = v.trips;
    probes = v.probes;
    counts =
        subst (λ st. Counts st (record cb { failures = pos 0 })) (sym at) (omega arith, v.trips.0);
  })
  | inr (inl at) ↦ IsSound-of (record_success cb) cb (succeeds-open (pos 0) cb at) v
  | inr (inr at) ↦
      IsSound-of (record_success cb) _ (succeeds-half_open (pos 0) cb at)
        (probe_succeeded-IsSound cb at v)
]
event-IsSound (fails now) cb v = elim (state_cases cb.state) [
  | inl at ↦
      IsSound-of (record_failure now cb) _ (fails-closed now cb at)
        (call_failed-IsSound now cb at v)
  | inr (inl at) ↦ IsSound-of (record_failure now cb) cb (fails-open now cb at) v
  | inr (inr at) ↦
      IsSound-of (record_failure now cb) _ (fails-half_open now cb at)
        (record { trips = v.trips; probes = v.probes; counts = tt })
]

events-IsSound : (es : List Event) (cb : CircuitBreaker) → IsSound cb → IsSound (after_events es cb)
unfolding after_events
events-IsSound [] cb v = v
events-IsSound (e ∷ es) cb v = events-IsSound es (after_event e cb) (event-IsSound e cb v)

new-IsSound :
    (threshold : Int64) (wait : Duration) (max_probe : Int64)
    → (pos 0 <ℤ threshold) × InRange threshold
    → (pos 0 <ℤ max_probe) × InRange max_probe
    → IsSound (new_breaker threshold wait max_probe)
unfolding new_breaker
new-IsSound threshold wait max_probe t p = record {
  trips = t;
  probes = p;
  counts = (omega arith, t.0);
}

-- After any calls on a new breaker with positive thresholds, a half-open breaker lets every call through: the
-- number of probes that are under way is not limited.
pub half_open_admits_all :
    (threshold : Int64) (wait : Duration) (max_probe : Int64) (es : List Event) (now : Time)
    → (pos 0 <ℤ threshold) × InRange threshold
    → (pos 0 <ℤ max_probe) × InRange max_probe
    → (after_events es (new_breaker threshold wait max_probe)).state ≡ half_open
    → (allow_call now (after_events es (new_breaker threshold wait max_probe))).0 ≡ true
half_open_admits_all threshold wait max_probe es now t p at =
    let cb = after_events es (new_breaker threshold wait max_probe) in
    let v =
      events-IsSound es (new_breaker threshold wait max_probe)
        (new-IsSound threshold wait max_probe t p) in
    let (low, high) = subst (λ st. Counts st cb) at v.counts in
    ap (λ x. x.0) (asks-half_open now cb at) ∙ ground (arith, high)
