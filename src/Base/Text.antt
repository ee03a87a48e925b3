-- ===== src/Base/Text.antt =====
-- Go strings as texts of Unicode code points, and what the standard library does with them.
use Prim.Native.Char.{code}
use Prim.Native.String
use Prim.Native.String.{String}
use Prim.Native.Nat.{ℕ, zero, suc, ◌+◌, ◌/◌, ◌%◌}
use mathlib.Core.List.{List, [], ◌∷◌, ◌++◌}
use mathlib.Core.Path.{◌≡◌, refl}
use rlaas.Base.Tests.{ltb, if◌then◌else◌}
use rlaas.Base.Int.{ℤ, pos, negsuc}

-- Concatenation.
infixr 66 ◌<>◌
abbrev pub ◌<>◌ : String → String → String
s <> t = String.◌++◌ s t

-- A literal as a list of code points.
abbrev pub codes : String → List ℕ
codes String.[] = []
codes (String.◌∷◌ c s) = code c ∷ codes s

-- The UTF-8 bytes of a code point and of a text.
utf8_of : ℕ → List ℕ
utf8_of c =
    if ltb c 0x80
    then c ∷ []
    else if ltb c 0x800
    then (0xc0 + c / 64) ∷ (0x80 + c % 64) ∷ []
    else if ltb c 0x10000
    then (0xe0 + c / 4096) ∷ (0x80 + c / 64 % 64) ∷ (0x80 + c % 64) ∷ []
    else (0xf0 + c / 262144) ∷ (0x80 + c / 4096 % 64) ∷ (0x80 + c / 64 % 64) ∷ (0x80 + c % 64) ∷ []

unfoldable pub bytes : String → List ℕ
unfolding utf8_of
bytes String.[] = []
bytes (String.◌∷◌ c s) = utf8_of (code c) ++ bytes s

-- A decimal digit as a text.
digit : ℕ → String
digit zero = "0"
digit (suc zero) = "1"
digit (suc (suc zero)) = "2"
digit (suc (suc (suc zero))) = "3"
digit (suc (suc (suc (suc zero)))) = "4"
digit (suc (suc (suc (suc (suc zero))))) = "5"
digit (suc (suc (suc (suc (suc (suc zero)))))) = "6"
digit (suc (suc (suc (suc (suc (suc (suc zero))))))) = "7"
digit (suc (suc (suc (suc (suc (suc (suc (suc zero)))))))) = "8"
digit _ = "9"

-- The decimal digits of a number, with fuel for as many digits.
decimal_from : ℕ → ℕ → String → String
decimal_from zero n rest = rest
decimal_from (suc f) n rest =
    let more = decimal_from f (n / 10) (digit (n % 10) <> rest) in
    if ltb n 10 then digit n <> rest else more

-- `strconv.FormatInt`: an `int64` has at most 19 digits.
unfoldable pub format_int : ℤ → String
unfolding decimal_from digit
format_int (pos n) = decimal_from 20 n ""
format_int (negsuc n) = "-" <> decimal_from 20 (suc n) ""

bytes-sample : bytes "aé" ≡ 0x61 ∷ 0xc3 ∷ 0xa9 ∷ []
unfolding bytes
bytes-sample = refl

format_int-sample : format_int (negsuc 1204) ≡ "-1205"
unfolding format_int
format_int-sample = refl
