-- ===== src/Control/Rules.antt =====
-- `validatePolicy` and `selectVersionForRollback` of internal/adapter/http/controlplane.go.
use rlaas.Base.{List, [], ◌∷◌, Bool, false, Option, none, some, ◌==◌, ◌||◌, if◌then◌else◌}
use rlaas.Base.Int.{pos, ltb_ℤ, ◌=ℤ◌}
use rlaas.Base.Int64.{Int64}
use rlaas.Base.Exec.{Result, ok, err}
use rlaas.Model.{AlgorithmType, unknown, ActionType, other, Policy, PolicyVersion}

is_unset_algorithm : AlgorithmType → Bool
is_unset_algorithm (unknown s) = s == ""
is_unset_algorithm _ = false

is_unset_action : ActionType → Bool
is_unset_action (other s) = s == ""
is_unset_action _ = false

unfoldable pub validate_policy : Policy → Result (Unit {0})
unfolding is_unset_algorithm is_unset_action
validate_policy p =
    if p.name == ""
    then err "policy name is required"
    else if is_unset_algorithm p.algorithm.type
    then err "algorithm type is required"
    else if ltb_ℤ p.algorithm.limit (pos 0)
    then err "algorithm limit must be >= 0"
    else if is_unset_action p.action
    then err "action is required"
    else if ltb_ℤ p.rollout_percent (pos 0) || ltb_ℤ (pos 100) p.rollout_percent
    then err "rollout_percent must be 0..100"
    else ok tt

unfoldable pub find_version : Int64 → List PolicyVersion → Option PolicyVersion
find_version wanted [] = none
find_version wanted (v ∷ vs) = if v.version =ℤ wanted then some v else find_version wanted vs

-- `versions[len(versions)-2]`, where there are two.
unfoldable pub last_but_one : {A : Type 0} → List A → Option A
last_but_one [] = none
last_but_one (v ∷ []) = none
last_but_one (v ∷ w ∷ []) = some v
last_but_one (v ∷ w ∷ x ∷ vs) = last_but_one (w ∷ x ∷ vs)

unfoldable pub select_version_for_rollback : List PolicyVersion → Int64 → Option PolicyVersion
unfolding find_version last_but_one
select_version_for_rollback versions requested =
    if ltb_ℤ (pos 0) requested then find_version requested versions else last_but_one versions
