-- ===== src/Provider/Registry.antt =====
-- pkg/provider/registry.go: the adapters by their names. The list has the adapters in the order in which they
-- were registered; `Range` over the map, and so `List`, gives no order.
use rlaas.Base.{String, List, [], ◌∷◌, ◌++◌, Option, none, some, map, ◌==◌, ◌<>◌, if◌then◌else◌}
use rlaas.Base.Exec.{ok, err, Exec}

-- `quote` is `%q`.
module _ {A : Type 0} (name_of : A → String) (quote : String → String) where
  unfoldable pub get : String → List A → Option A
  get name [] = none
  get name (a ∷ rest) = if name_of a == name then some a else get name rest

  unfoldable pub register : A → Exec (List A) (Unit {0})
  unfolding get
  register a adapters = elim (get (name_of a) adapters) [
    | some old ↦ (err ("provider " <> quote (name_of a) <> " already registered"), adapters)
    | none ↦ (ok tt, adapters ++ a ∷ [])
  ]

  unfoldable pub list_names : List A → List String
  list_names adapters = map name_of adapters
