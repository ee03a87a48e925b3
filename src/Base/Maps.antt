-- ===== src/Base/Maps.antt =====
-- Go maps with text keys, as functions into `Option`. The code that walks over a whole map changes each
-- entry by itself, so the order of a walk is not modelled.
use rlaas.Base.Tests.{if◌then◌else◌}
use Prim.Native.String.{String}
use text.Mathlib.Text.{◌==◌}
use mathlib.Core.Path.{◌≡◌, ap}
use mathlib.Core.Option.{Option, none, some}

abbrev pub Map {ℓ} : Type ℓ → Type ℓ
Map V = String → Option V

module _ {ℓ} {V : Type ℓ} where
  abbrev pub empty : Map V
  empty j = none

  -- `m[k] = v`
  abbrev pub put : Map V → String → V → Map V
  put m k v j = if k == j then some v else m j

  -- `delete(m, k)`
  abbrev pub remove : Map V → String → Map V
  remove m k j = if k == j then none else m j

  -- `m[k]`, with the zero value on a missing key.
  abbrev pub get_or : Option V → V → V
  get_or none z = z
  get_or (some v) z = v

pub some_inj {ℓ} : {A : Type ℓ} {a b : A} → some a ≡ some b → a ≡ b
some_inj {A = A} {a = a} e = ap (λ o. get_or o a) e
