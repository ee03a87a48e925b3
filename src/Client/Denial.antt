-- ===== src/Client/Denial.antt =====
-- When the client of pkg/rlaas/client.go denies a request.
use rlaas.Base.{String, List, Option, some, ◌≡◌}
use rlaas.Base.Lists.{keep_if}
use rlaas.Base.Exec.{Result, ok}
use rlaas.Base.Float.{FloatOps}
use rlaas.Base.Time.{Time}
use rlaas.Model.{RequestContext, Policy}
use rlaas.Engine.Matcher
use rlaas.Engine.Evaluator.{is_candidate}
use rlaas.Engine.Evaluator.InForce.{IsInForce, IsMeant}
use rlaas.Key
use rlaas.Client.{Options}

abbrev pair_or : Policy × String → Result (Option (Policy × String)) → Policy × String
pair_or x (ok (some y)) = y
pair_or x _ = x

module _ {S : Type 0} (fl : FloatOps) (digest : String → String) (opts : Options S) where
  abbrev key_of : RequestContext → Policy → String
  key_of req policy = Key.build digest (Key.prefix_or_default opts.key_prefix) policy req

  -- The policies that a request's policies are narrowed to.
  abbrev matched_of : Time → RequestContext → List Policy → List Policy
  matched_of now req policies = Matcher.match req (keep_if (is_candidate now req) policies)

  abbrev Serves : Time → RequestContext → Policy → String → Type 0
  Serves now req policy key =
      IsMeant req policy × IsInForce now req policy × (key_of req policy ≡ key)
