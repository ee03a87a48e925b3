-- ===== src/Adapter/Agreement.antt =====
-- The HTTP middleware of internal/adapter/http/middleware.go and the interceptor of
-- internal/adapter/grpc/interceptor.go on the same decision.
use rlaas.Base.{Bool, ◌≡◌, refl, arith, inl, inr, Bool-cases}
use rlaas.Base.Time.{Time}
use rlaas.Base.Float.{FloatOps}
use rlaas.Base.Exec.{Result, ok, err}
use rlaas.Model.{
  Decision, ActionType, allow, deny, delay, sample, drop, downgrade, drop_low_priority, shadow_only,
  other,
}
use rlaas.Adapter.Middleware.{next_handler, is_refusal, refused, enforce}
use rlaas.Adapter.Grpc.{call_handler, is_grpc_refusal, intercept}

same_refusals : (a : ActionType) → is_grpc_refusal a ≡ is_refusal a
unfolding is_grpc_refusal is_refusal
same_refusals deny = refl
same_refusals drop = refl
same_refusals drop_low_priority = refl
same_refusals allow = refl
same_refusals delay = refl
same_refusals sample = refl
same_refusals downgrade = refl
same_refusals shadow_only = refl
same_refusals (other s) = refl

-- What the middleware passes on to the handler, the interceptor passes on too.
pub http_within_grpc :
    (fl : FloatOps) (now : Time) (gone : Bool) (r : Result Decision)
    → (enforce fl now gone r).outcome ≡ next_handler
    → intercept r ≡ call_handler
unfolding enforce intercept refused
http_within_grpc fl now gone (err why) h = absurd (grind (arith, h))
http_within_grpc fl now gone (ok d) h = elim (Bool-cases (is_refusal d.action)) [
  | inl refusal ↦ ground (arith, h, refusal)
  | inr other_action ↦ ground (arith, same_refusals d.action, other_action)
]
