-- ===== src/Engine/Evaluator/Denials.antt =====
-- When engine.go denies a request.
use rlaas.Base.{String, false, Option, none, some, ◌≡◌, inl, inr, refl, arith, Option-cases}
use mathlib.Core.Path.{subst}
use rlaas.Base.Exec.{Result, ok, err}
use rlaas.Model.{RequestContext, Decision, Policy, fail_closed}
use rlaas.Algorithm.Budget.{Readings}
use rlaas.Engine.Evaluator.{
  Engine, Algorithm, handle_failure, shadowed, is_shadow, finish, decide, conclude, allow_decision,
  pick_policy, evaluate,
}

module _ {S : Type 0} (e : Engine S) where
  -- A policy is in force for the request under a key, and denies it: its algorithm answered with a denial
  -- and it is not in shadow mode, or its algorithm failed or is missing and it fails closed.
  pub data Denies (t : Readings) (req : RequestContext) (s : S) (policy : Policy) (key : String)
      : Type 0 where
    by_algorithm :
        (algorithm : Algorithm S) (d : Decision)
        → e.algorithms policy.algorithm.type ≡ some algorithm
        → (algorithm t policy req key s).0 ≡ ok d
        → d.allowed ≡ false
        → is_shadow policy.enforcement_mode ≡ false
        → Denies t req s policy key
    by_failure :
        (algorithm : Algorithm S) (why : String)
        → e.algorithms policy.algorithm.type ≡ some algorithm
        → (algorithm t policy req key s).0 ≡ err why
        → policy.failure_mode ≡ fail_closed
        → Denies t req s policy key
    by_absence :
        e.algorithms policy.algorithm.type ≡ none
        → policy.failure_mode ≡ fail_closed
        → Denies t req s policy key

  failure-denied :
      (policy : Policy) (key why : String)
      → (handle_failure policy key why).allowed ≡ false
      → policy.failure_mode ≡ fail_closed
  unfolding handle_failure
  failure-denied policy key why h = ground arith

  shadowed-denied :
      (policy : Policy) (d : Decision)
      → (shadowed policy d).allowed ≡ false
      → (is_shadow policy.enforcement_mode ≡ false) × (d.allowed ≡ false)
  unfolding shadowed
  shadowed-denied policy d h = ground arith

  answer-Denies :
      (t : Readings) (req : RequestContext) (s : S) (policy : Policy) (key : String)
      (algorithm : Algorithm S) (r : Result Decision)
      → e.algorithms policy.algorithm.type ≡ some algorithm
      → (algorithm t policy req key s).0 ≡ r
      → (finish e policy key r).allowed ≡ false
      → Denies t req s policy key
  unfolding finish
  answer-Denies t req s policy key algorithm (err why) found answered h =
      by_failure algorithm why found answered (failure-denied policy key why h)
  answer-Denies t req s policy key algorithm (ok d) found answered h =
      let (mode, denied) = shadowed-denied policy _ h in
      by_algorithm algorithm d found answered denied mode

  decide-absent :
      (t : Readings) (req : RequestContext) (s : S) (policy : Policy) (key : String)
      → e.algorithms policy.algorithm.type ≡ none
      → (decide e t req policy key s).0 ≡ handle_failure policy key "algorithm not configured"
  unfolding decide
  decide-absent t req s policy key absent = rw (absent, decide)

  decide-found :
      (t : Readings) (req : RequestContext) (s : S) (policy : Policy) (key : String)
      (algorithm : Algorithm S)
      → e.algorithms policy.algorithm.type ≡ some algorithm
      → (decide e t req policy key s).0 ≡ finish e policy key (algorithm t policy req key s).0
  unfolding decide
  decide-found t req s policy key algorithm found = rw (found, decide)

  decision-Denies :
      (t : Readings) (req : RequestContext) (s : S) (policy : Policy) (key : String)
      → (decide e t req policy key s).0.allowed ≡ false
      → Denies t req s policy key
  decision-Denies t req s policy key h = elim (Option-cases (e.algorithms policy.algorithm.type)) [
    | inl absent ↦ by_absence absent (
        failure-denied policy key "algorithm not configured"
          (subst (λ d. d.allowed ≡ false) (decide-absent t req s policy key absent) h))
    | inr (algorithm, found) ↦
        answer-Denies t req s policy key algorithm (algorithm t policy req key s).0 found refl
          (subst (λ d. d.allowed ≡ false) (decide-found t req s policy key algorithm found) h)
  ]

  -- What comes of a resolution: only the policy it names can deny.
  conclude-Denies :
      (t : Readings) (req : RequestContext) (r : Result (Option (Policy × String))) (s : S)
      → (conclude e t req r s).0.allowed ≡ false
      → (policy : Policy) × (key : String) × (r ≡ ok (some (policy, key)))
        × Denies t req s policy key
  unfolding conclude allow_decision
  conclude-Denies t req (err why) s h = absurd (ground arith)
  conclude-Denies t req (ok none) s h = absurd (ground arith)
  conclude-Denies t req (ok (some (policy, key))) s h =
      (policy, key, refl, decision-Denies t req s policy key h)

  -- `Evaluate` denies a request only if a policy was picked, with its key, and that policy's
  -- algorithm denied it outside shadow mode, or failed or is missing while the policy fails closed. A
  -- failure to load, match or build a key never denies.
  pub denied_only_by_policy :
      (t : Readings) (req : RequestContext) (s : S)
      → (evaluate e t req s).0.allowed ≡ false
      → (policy : Policy) × (key : String) × ((pick_policy e t.now req s).0
          ≡ ok (some (policy, key)))
        × Denies t req (pick_policy e t.now req s).1 policy key
  unfolding evaluate
  denied_only_by_policy t req s h =
      conclude-Denies t req (pick_policy e t.now req s).0 (pick_policy e t.now req s).1 h
