-- ===== src/Base/Float.antt =====
-- The `float64` arithmetic that the code uses, as a parameter: conversions from and to `int64`, the four
-- operations, the comparisons, and `math.Min`, `math.Max` and `math.Round`.
use rlaas.Base.{Bool}
use rlaas.Base.Int.{quot, ◌-ℤ◌, ◌*ℤ◌}
use rlaas.Base.Int64.{Int64}
use rlaas.Base.Time.{Duration, second}
use rlaas.Model.{Float64}

pub record FloatOps : Type 0 where
  pub of_int : Int64 → Float64
  pub to_int : Float64 → Int64
  pub plus : Float64 → Float64 → Float64
  pub minus : Float64 → Float64 → Float64
  pub times : Float64 → Float64 → Float64
  pub over : Float64 → Float64 → Float64
  pub lt : Float64 → Float64 → Bool
  pub le : Float64 → Float64 → Bool
  pub min : Float64 → Float64 → Float64
  pub max : Float64 → Float64 → Float64
  pub round : Float64 → Float64

-- `d.Seconds()`.
unfoldable pub seconds : FloatOps → Duration → Float64
seconds fl d =
    let whole = quot d second in
    fl.plus (fl.of_int whole) (fl.over (fl.of_int (d -ℤ whole *ℤ second)) (fl.of_int second))
