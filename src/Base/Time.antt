-- ===== src/Base/Time.antt =====
-- Go's `time` package, as far as the code uses it. A `time.Time` is the number of nanoseconds since the
-- zero time, 1 January of the year 1, 00:00 UTC, and its location is UTC. A `time.Duration` is an
-- `int64` of nanoseconds.
use Prim.Native.Nat.{ℕ, ◌*◌, ◌/◌, ◌^◌, ◌<◌}
use mathlib.Core.Bool.{Bool}
use native.Mathlib.Omega.{arith}
use rlaas.Base.Tests.{leb, if◌then◌else◌}
use rlaas.Base.Int.{
  ℤ, pos, negsuc, pos_part, neg_part, ◌+ℤ◌, ◌-ℤ◌, ◌≤ℤ◌, ◌<ℤ◌, ◌=ℤ◌, leb_ℤ, ltb_ℤ, floor_mod,
  +ℤ_parts, -ℤ_parts,
}
use rlaas.Base.Int64.{Int64, max_int64, wrap64}

abbrev pub Time : Type 0
Time = ℤ

abbrev pub Duration : Type 0
Duration = ℤ

abbrev pub second_ns : ℕ
second_ns = 1000000000

abbrev pub minute_ns : ℕ
minute_ns = 60000000000

abbrev pub hour_ns : ℕ
hour_ns = 3600000000000

abbrev pub day_ns : ℕ
day_ns = 86400000000000

abbrev pub second : Duration
second = pos second_ns

abbrev pub minute : Duration
minute = pos minute_ns

abbrev pub hour : Duration
hour = pos hour_ns

abbrev pub millisecond : Duration
millisecond = pos 1000000

-- Seconds from the zero time to 1 January 1970.
abbrev pub unix_epoch : ℕ
unix_epoch = 62135596800

unfoldable pub is_zero : Time → Bool
is_zero t = t =ℤ pos 0

unfoldable pub before : Time → Time → Bool
before t u = ltb_ℤ t u

unfoldable pub after : Time → Time → Bool
after t u = ltb_ℤ u t

-- `t.Add(d)`: no clock reading comes near the ends of the range of a `time.Time`.
unfoldable pub add : Time → Duration → Time
add t d = t +ℤ d

-- `t.Sub(u)`, which is held to the range of a `Duration`.
unfoldable pub sub : Time → Time → Duration
sub t u =
    let d = t -ℤ u in
    if leb (2 ^ 63) (pos_part d)
    then pos max_int64
    else if leb (2 ^ 63) (neg_part d)
    then negsuc max_int64
    else d

-- `t.Truncate(d)` rounds down to a multiple of `d` since the zero time.
unfoldable pub truncate : Time → Duration → Time
truncate t d = if leb_ℤ d (pos 0) then t else t -ℤ pos (floor_mod t (pos_part d))

-- `t.Unix()`.
floor_seconds : Time → ℤ
floor_seconds (pos n) = pos (n / second_ns)
floor_seconds (negsuc n) = negsuc (n / second_ns)

unfoldable pub unix : Time → Int64
unfolding floor_seconds
unix t = wrap64 (floor_seconds t -ℤ pos unix_epoch)

-- `t.UnixNano()`.
unfoldable pub unix_nano : Time → Int64
unix_nano t = wrap64 (t -ℤ pos (unix_epoch * second_ns))

pub floor_mod-lt : (t : ℤ) (d : ℕ) → 0 < d → floor_mod t d < d
unfolding floor_mod
floor_mod-lt (pos n) d h = grind arith
floor_mod-lt (negsuc n) d h = omega arith

-- Rounding down stays within one step below.
pub truncate_bounds :
    (t : Time) (d : Duration) → pos 0 <ℤ d → (truncate t d ≤ℤ t) × (t <ℤ truncate t d +ℤ d)
unfolding truncate
truncate_bounds t (pos k) h = ground (
  arith,
  -ℤ_parts t (pos (floor_mod t k)),
  +ℤ_parts (t -ℤ pos (floor_mod t k)) (pos k),
  floor_mod-lt t k,
)
truncate_bounds t (negsuc k) h = absurd (omega arith)
