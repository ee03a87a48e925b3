-- ===== src/Algorithm/Bucket.antt =====
-- What tokenbucket.go and leakybucket.go share: a level in thousandths under one key, the time of its last
-- change under another, and how the seconds since then are read.
use Prim.Native.Nat.{ℕ, zero, suc}
use rlaas.Base.{String, if◌then◌else◌}
use rlaas.Base.Int.{pos, ◌=ℤ◌}
use rlaas.Base.Int64.{Int64, ◌-w◌}
use rlaas.Base.Time.{Time, Duration, second, unix_nano}
use rlaas.Base.Exec.{Exec, ok, err}
use rlaas.Base.Float.{FloatOps}
use rlaas.Model.{Float64}
use rlaas.Store.{CounterStore}

-- The time of the last change, now if there is none.
unfoldable pub last_or_now : Time → Int64 → Int64
last_or_now now last_nanos = if last_nanos =ℤ pos 0 then unix_nano now else last_nanos

-- The seconds since the last change, held at 0 if the clock went back.
unfoldable pub elapsed_seconds : FloatOps → Time → Int64 → Float64
elapsed_seconds fl now last_nanos =
    let elapsed = fl.over (fl.of_int (unix_nano now -w last_nanos)) (fl.of_int second) in
    if fl.lt elapsed (fl.of_int (pos 0)) then fl.of_int (pos 0) else elapsed

-- Three tries to write the time; a failure is passed over.
unfoldable pub store_time :
    {S : Type 0} → CounterStore S → String → Int64 → Duration → ℕ → Exec S (Unit {0})
store_time c key nanos ttl zero s = (ok tt, s)
store_time c key nanos ttl (suc n) s =
    let (r, s') = c.set key nanos ttl s in
    elim r [ ok _ ↦ (ok tt, s') | err _ ↦ store_time c key nanos ttl n s' ]
