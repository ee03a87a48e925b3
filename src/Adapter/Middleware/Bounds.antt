-- ===== src/Adapter/Middleware/Bounds.antt =====
-- What internal/adapter/http/middleware.go does with a decision.
use rlaas.Base.{Bool, true, false, ◌≡◌, arith, inl, inr, Bool-cases, if◌then◌else◌}
use rlaas.Base.Int.{pos, ◌≤ℤ◌, ltb_ℤ}
use rlaas.Base.Time.{Time, Duration}
use rlaas.Base.Float.{FloatOps}
use rlaas.Base.Exec.{Result, ok, err}
use rlaas.Model.{Decision}
use rlaas.Adapter.Middleware.{
  Handled, is_refusal, is_delay, capped_delay, max_delay, refused, passed, delayed, enforce,
}

abbrev pub InTime : Handled → Type 0
InTime h = (pos 0 ≤ℤ h.waited) × (h.waited ≤ℤ max_delay)

either : (b : Bool) (x y : Handled) → InTime x → InTime y → InTime (if b then x else y)
either true x y f g = f
either false x y f g = g

capped :
    (d : Duration)
    → ltb_ℤ (pos 0) (capped_delay d) ≡ true
    → (pos 0 ≤ℤ capped_delay d) × (capped_delay d ≤ℤ max_delay)
unfolding capped_delay
capped d h = elim (Bool-cases (ltb_ℤ max_delay d)) [
  | inl long ↦ rw long (omega arith, omega arith)
  | inr short ↦ rw short (ground (arith, h, short), ground (arith, short))
]

-- No request is held back for longer than 30 seconds, whatever the engine answers.
pub enforce_waits_at_most :
    (fl : FloatOps) (now : Time) (gone : Bool) (r : Result Decision)
    → InTime (enforce fl now gone r)
unfolding enforce refused passed delayed
enforce_waits_at_most fl now gone (err why) = (omega arith, omega arith)
enforce_waits_at_most fl now gone (ok d) =
    let now_or_never : InTime (passed fl now d (pos 0)) = (omega arith, omega arith) in
    either (is_refusal d.action) _ _ (omega arith, omega arith)
      (either (is_delay d.action) _ _
        (elim (Bool-cases (ltb_ℤ (pos 0) (capped_delay d.delay_for))) [
          | inl long ↦ rw long (either gone _ _ (capped d.delay_for long) (capped d.delay_for long))
          | inr short ↦ rw short now_or_never
        ])
        now_or_never)
