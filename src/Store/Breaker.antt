-- ===== src/Store/Breaker.antt =====
-- The circuit breaker of internal/store/counter/redis/store.go. A call of the breaker is one step, at a clock
-- reading; where the code reads its atomics one by one, no other call comes in between.
pub mod Trips
pub mod Cycle
use rlaas.Base.{String, List, [], ◌∷◌, Bool, true, false, Option, none, some, if◌then◌else◌}
use rlaas.Base.Int.{pos, leb_ℤ, ltb_ℤ}
use rlaas.Base.Int64.{Int64, ◌+w◌, ◌-w◌}
use rlaas.Base.Time.{Time, Duration, unix_nano, second}
use rlaas.Base.Exec.{Result, ok, err, Exec}
use Prim.Native.Nat.{◌*◌}

pub data BreakerState : Type 0 where
  closed open_ half_open : BreakerState

-- `opened_at` is in nanoseconds of the Unix time.
pub record CircuitBreaker : Type 0 where
  pub state : BreakerState
  pub failures : Int64
  pub threshold : Int64
  pub half_open_after : Duration
  pub max_probe : Int64
  pub probe_count : Int64
  pub opened_at : Int64

unfoldable pub new_breaker : Int64 → Duration → Int64 → CircuitBreaker
new_breaker threshold half_open_after max_probe = record {
  state = closed;
  failures = pos 0;
  threshold = threshold;
  half_open_after = half_open_after;
  max_probe = max_probe;
  probe_count = pos 0;
  opened_at = pos 0;
}

pub record BreakerOptions : Type 0 where
  pub enabled : Bool
  pub open_threshold : Int64
  pub half_open_after : Duration
  pub half_open_max_probe : Int64

-- The end of `NewWithOptions`.
unfoldable pub breaker_of : BreakerOptions → Option CircuitBreaker
unfolding new_breaker
breaker_of o =
    if o.enabled
    then some (
        new_breaker (if leb_ℤ o.open_threshold (pos 0) then pos 5 else o.open_threshold)
          (if leb_ℤ o.half_open_after (pos 0) then pos (10 * 1000000000) else o.half_open_after)
          (if leb_ℤ o.half_open_max_probe (pos 0) then pos 2 else o.half_open_max_probe))
    else none

-- `Allow` from an open breaker.
unfoldable pub probe_when_due : Time → CircuitBreaker → Bool × CircuitBreaker
probe_when_due now cb =
    if ltb_ℤ cb.half_open_after (unix_nano now -w cb.opened_at)
    then (true, record cb { state = half_open; probe_count = pos 0 })
    else (false, cb)

unfoldable pub allow_call : Time → CircuitBreaker → Bool × CircuitBreaker
unfolding probe_when_due
allow_call now cb = elim cb.state [
  | closed ↦ (true, cb)
  | open_ ↦ probe_when_due now cb
  | half_open ↦ (ltb_ℤ cb.probe_count cb.max_probe, cb)
]

-- `RecordSuccess` in a half-open breaker.
unfoldable pub probe_succeeded : CircuitBreaker → CircuitBreaker
probe_succeeded cb =
    let n = cb.probe_count +w pos 1 in
    if leb_ℤ cb.max_probe n
    then record cb { state = closed; failures = pos 0; probe_count = pos 0 }
    else record cb { probe_count = n }

unfoldable pub record_success : CircuitBreaker → CircuitBreaker
unfolding probe_succeeded
record_success cb = elim cb.state [
  | closed ↦ record cb { failures = pos 0 }
  | open_ ↦ cb
  | half_open ↦ probe_succeeded cb
]

-- `RecordFailure` in a closed breaker.
unfoldable pub call_failed : Time → CircuitBreaker → CircuitBreaker
call_failed now cb =
    let n = cb.failures +w pos 1 in
    if leb_ℤ cb.threshold n
    then record cb { failures = n; state = open_; opened_at = unix_nano now }
    else record cb { failures = n }

unfoldable pub record_failure : Time → CircuitBreaker → CircuitBreaker
unfolding call_failed
record_failure now cb = elim cb.state [
  | closed ↦ call_failed now cb
  | open_ ↦ cb
  | half_open ↦ record cb { state = open_; opened_at = unix_nano now; probe_count = pos 0 }
]

-- What is recorded of an answer.
unfoldable pub record_answer : {A : Type 0} → Time → Result A → CircuitBreaker → CircuitBreaker
unfolding record_success record_failure
record_answer now (ok a) cb = record_success cb
record_answer now (err why) cb = record_failure now cb

-- `do`: the operation runs if the breaker allows it. The clock is read before and after it.
unfoldable pub guarded : {S A : Type 0} → Time → Time → Exec S A → Exec (S × CircuitBreaker) A
unfolding allow_call record_answer
guarded before after run (s, cb) =
    let (go, cb') = allow_call before cb in
    if go
    then (let (r, s') = run s in (r, (s', record_answer after r cb')))
    else (err "circuit breaker is open", (s, cb'))
