-- ===== src/Base/ParseDuration.antt =====
-- `time.ParseDuration`, over code points: [-+]?([0-9]*(\.[0-9]*)?[a-z]+)+. A fraction is scaled exactly,
-- where Go rounds through a `float64`.
use Prim.Native.Nat.{ℕ, zero, suc, ◌+◌, ◌-◌, ◌*◌, ◌/◌, ◌^◌}
use Prim.Native.String.{String}
use mathlib.Core.Bool.{Bool, ◌&&◌, ◌||◌}
use mathlib.Core.List.{List, [], ◌∷◌}
use mathlib.Core.Option.{Option, none, some}
use mathlib.Core.Path.{◌≡◌, refl}
use rlaas.Base.Tests.{ltb, leb, ◌=ℕ◌, if◌then◌else◌}
use rlaas.Base.Int.{pos, sub_ℕ}
use rlaas.Base.Text.{codes}
use rlaas.Base.Time.{Duration, second_ns, minute_ns, hour_ns}

is_digit : ℕ → Bool
is_digit c = leb b'0' c && leb c b'9'

-- The digits read, their count and the rest of the text.
pub record Lead : Type 0 where
  pub value : ℕ
  pub count : ℕ
  pub rest : List ℕ

leading : ℕ → ℕ → List ℕ → Lead
unfolding is_digit
leading v n [] = record { value = v; count = n; rest = [] }
leading v n (c ∷ s) =
    let more = leading (v * 10 + (c - b'0')) (suc n) s in
    if is_digit c then more else record { value = v; count = n; rest = c ∷ s }

-- The unit: all up to the next digit or point.
unit_and_rest : List ℕ → List ℕ × List ℕ
unfolding is_digit
unit_and_rest [] = ([], [])
unit_and_rest (c ∷ s) =
    let (u, r) = unit_and_rest s in if (c =ℕ b'.') || is_digit c then ([], c ∷ s) else (c ∷ u, r)

unit_ns : List ℕ → Option ℕ
unit_ns (x ∷ []) =
    if x =ℕ b's'
    then some second_ns
    else if x =ℕ b'm'
    then some minute_ns
    else if x =ℕ b'h'
    then some hour_ns
    else none
unit_ns (x ∷ y ∷ []) =
    if y =ℕ b's'
    then (if x =ℕ b'n'
        then some 1
        else if (x =ℕ b'u') || (x =ℕ 0xb5) || (x =ℕ 0x3bc)
        then some 1000
        else if x =ℕ b'm'
        then some 1000000
        else none)
    else none
unit_ns _ = none

-- The fraction behind a point, if there is one.
fraction : List ℕ → Lead
unfolding leading
fraction [] = record { value = 0; count = 0; rest = [] }
fraction (c ∷ s) =
    if c =ℕ b'.' then leading 0 0 s else record { value = 0; count = 0; rest = c ∷ s }

-- One number with its unit, added to the nanoseconds so far.
one_part : ℕ → List ℕ → Option (ℕ × List ℕ)
unfolding leading fraction unit_and_rest unit_ns
one_part total s =
    let whole = leading 0 0 s in
    let part = fraction whole.rest in
    let (name, rest) = unit_and_rest part.rest in
    if (whole.count + part.count) =ℕ 0 then none else elim (unit_ns name) [
      | none ↦ none
      | some unit ↦
          (let sum = total + whole.value * unit + part.value * unit / 10 ^ part.count in
            if ltb (2 ^ 63) sum then none else some (sum, rest))
    ]

parts : ℕ → ℕ → List ℕ → Option ℕ
unfolding one_part
parts zero total s = none
parts (suc fuel) total [] = some total
parts (suc fuel) total (c ∷ s) = elim (one_part total (c ∷ s)) [
  | none ↦ none
  | some (total', rest) ↦ parts fuel total' rest
]

length_of : List ℕ → ℕ
length_of [] = 0
length_of (_ ∷ s) = suc (length_of s)

-- `s == "0"` is 0 without a unit, and the empty text is no duration.
magnitude : List ℕ → Option ℕ
unfolding parts length_of
magnitude [] = none
magnitude (c ∷ []) = if c =ℕ b'0' then some 0 else none
magnitude s = parts (suc (length_of s)) 0 s

negative : Option ℕ → Option Duration
negative none = none
negative (some d) = some (sub_ℕ 0 d)

positive : Option ℕ → Option Duration
positive none = none
positive (some d) = if ltb d (2 ^ 63) then some (pos d) else none

signed : List ℕ → Option Duration
unfolding magnitude negative positive
signed [] = none
signed (c ∷ s) =
    if c =ℕ b'-'
    then negative (magnitude s)
    else if c =ℕ b'+'
    then positive (magnitude s)
    else positive (magnitude (c ∷ s))

unfoldable pub parse_duration : String → Option Duration
unfolding signed
parse_duration s = signed (codes s)

parse_minutes : parse_duration "1h30m" ≡ some (pos 5400000000000)
unfolding parse_duration
parse_minutes = refl

parse_fraction : parse_duration "-1.5s" ≡ some (sub_ℕ 0 1500000000)
unfolding parse_duration
parse_fraction = refl

parse_day : parse_duration "day" ≡ none
unfolding parse_duration
parse_day = refl
