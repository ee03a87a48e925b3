-- ===== src/Base/Calendar.antt =====
-- The calendar behind `time.Date`, `Weekday` and `AddDate`, in UTC. Days are counted from Monday,
-- 1 January of the year 1, and the calendar repeats after 400 years, which are 146097 days.
use Prim.Native.Nat.{ℕ, ◌+◌, ◌-◌, ◌*◌, ◌/◌, ◌%◌, ◌<◌}
use mathlib.Core.Bool.{Bool, ◌&&◌, ◌||◌, not}
use mathlib.Core.List.{List, [], ◌∷◌}
use mathlib.Core.Path.{◌≡◌, refl}
use native.Mathlib.Omega.{arith}
use rlaas.Base.Tests.{ltb, ◌=ℕ◌, if◌then◌else◌}
use rlaas.Base.Int.{pos, ◌-ℤ◌, floor_mod}
use rlaas.Base.Time.{Time, day_ns}

-- A place in a month: the days before it in the month, and the days of the month.
pub record MonthPlace : Type 0 where
  pub offset : ℕ
  pub days : ℕ

-- Walks the months of a year from the day of the year.
month_walk : ℕ → List ℕ → MonthPlace
month_walk d [] = record { offset = 0; days = 31 }
month_walk d (m ∷ ms) =
    let rest = month_walk (d - m) ms in if ltb d m then record { offset = d; days = m } else rest

month_lengths : Bool → List ℕ
month_lengths leap =
    31 ∷ (if leap then 29 else 28) ∷ 31 ∷ 30 ∷ 31 ∷ 30 ∷ 31 ∷ 31 ∷ 30 ∷ 31 ∷ 30 ∷ 31 ∷ []

-- Of four periods the last may be longer: the number of whole periods before, three at most.
at_most_three : ℕ → ℕ
at_most_three n = if ltb 3 n then 3 else n

-- The day of its year of a day of the 400-year cycle, and whether the year is a leap year: it in the cycle is 100 * century + 4 * olympiad + year.
year_day : ℕ → ℕ × Bool
unfolding at_most_three
year_day day =
    let century = at_most_three (day / 36524) in
    let in_century = day - 36524 * century in
    let olympiad = in_century / 1461 in
    let in_olympiad = in_century - 1461 * olympiad in
    let year = at_most_three (in_olympiad / 365) in
    let leap = (year =ℕ 3) && (not (olympiad =ℕ 24) || (century =ℕ 3)) in
    (in_olympiad - 365 * year, leap)

month_place : ℕ → MonthPlace
unfolding month_walk month_lengths year_day
month_place day = month_walk (year_day day).0 (month_lengths (year_day day).1)

-- The place of a time in its month.
unfoldable pub place_of : Time → MonthPlace
unfolding month_place
place_of t = month_place (floor_mod t (146097 * day_ns) / day_ns)

-- `t.Weekday()`: Sunday is 0.
unfoldable pub weekday : Time → ℕ
weekday t = (floor_mod t (7 * day_ns) / day_ns + 1) % 7

-- `time.Date(y, m, d - n, 0, 0, 0, 0, loc)` for the date y, m, d of a time.
unfoldable pub midnight : Time → ℕ → Time
midnight t n = t -ℤ pos (floor_mod t day_ns + n * day_ns)

month_walk-offset : (d : ℕ) (ms : List ℕ) → (month_walk d ms).offset < (month_walk d ms).days
unfolding month_walk
month_walk-offset d [] = omega arith
month_walk-offset d (m ∷ ms) = ground (arith, month_walk-offset (d - m) ms)

-- A day lies in its month.
pub offset-lt-days : (t : Time) → (place_of t).offset < (place_of t).days
unfolding place_of month_place
offset-lt-days t =
    let day = floor_mod t (146097 * day_ns) / day_ns in
    month_walk-offset (year_day day).0 (month_lengths (year_day day).1)

-- 29 February 2024 is the day 738944.
leap_day : place_of (pos (738944 * day_ns)) ≡ record { offset = 28; days = 29 }
unfolding place_of floor_mod
leap_day = refl

leap_day-weekday : weekday (pos (738944 * day_ns)) ≡ 4
unfolding weekday floor_mod
leap_day-weekday = refl
