-- ===== src/Engine/Evaluator/InForce.antt =====
-- What the guards of engine.go's `pickPolicy` and of matcher.go's `matches` come to.
use rlaas.Base.{String, List, [], ◌∷◌, true, ◌≡◌, ◌⊎◌, arith, eq_iff, ◌&&◌, Bool, ap}
use rlaas.Base.Lists.{All}
use rlaas.Base.Int.{pos, ◌≤ℤ◌, ◌<ℤ◌}
use rlaas.Base.Time.{Time, unix}
use rlaas.Base.Exec.{Result, ok, err}
use rlaas.Model.{StringMap, RequestContext, PolicyScope, Policy}
use rlaas.Engine.Matcher.{
  tag_of, match_string, match_tags, matches_scope, matches_policy, match_expr, is_ok_true,
  evaluate_expression,
}
use rlaas.Engine.Evaluator.{is_candidate, is_in_rollout, rollout_bucket}

-- The policy is enabled, its time has come and is not over, and it is for all requests or the request's
-- bucket is below its percentage.
pub record IsInForce (now : Time) (req : RequestContext) (p : Policy) : Type 0 where
  pub enabled : p.enabled ≡ true
  pub begun : (p.valid_from_unix ≤ℤ pos 0) ⊎ (p.valid_from_unix ≤ℤ unix now)
  pub lasting : (p.valid_to_unix ≤ℤ pos 0) ⊎ (unix now ≤ℤ p.valid_to_unix)
  pub rolled_out :
      (p.rollout_percent ≤ℤ pos 0)
      ⊎ ((pos 100 ≤ℤ p.rollout_percent) ⊎ (pos (rollout_bucket p req) <ℤ p.rollout_percent))

pub candidate-IsInForce :
    (now : Time) (req : RequestContext) (p : Policy)
    → is_candidate now req p ≡ true
    → IsInForce now req p
unfolding is_candidate is_in_rollout
candidate-IsInForce now req p h = record {
  enabled = ground (arith, h);
  begun = ground (arith, h);
  lasting = ground (arith, h);
  rolled_out = ground (arith, h);
}

-- What a scope asks for, next to what the request has.
abbrev pub asked : PolicyScope → RequestContext → List (String × String)
asked s req =
    (s.org_id, req.org_id)
    ∷ (s.tenant_id, req.tenant_id)
    ∷ (s.application, req.application)
    ∷ (s.service, req.service)
    ∷ (s.environment, req.environment)
    ∷ (s.signal_type, req.signal_type)
    ∷ (s.operation, req.operation)
    ∷ (s.endpoint, req.endpoint)
    ∷ (s.method, req.method)
    ∷ (s.user_id, req.user_id)
    ∷ (s.api_key, req.api_key)
    ∷ (s.client_id, req.client_id)
    ∷ (s.source_ip, req.source_ip)
    ∷ (s.region, req.region)
    ∷ (s.resource, req.resource)
    ∷ (s.severity, req.severity)
    ∷ (s.span_name, req.span_name)
    ∷ (s.topic, req.topic)
    ∷ (s.consumer_group, req.consumer_group)
    ∷ (s.job_type, req.job_type)
    ∷ []

abbrev pub Fits : String × String → Type 0
Fits (wanted, found) = (wanted ≡ "") ⊎ (wanted ≡ found)

-- Each field that the scope sets and each of its tags is the request's, and the expression, if there is one,
-- is true of the request.
pub record IsMeant (req : RequestContext) (p : Policy) : Type 0 where
  pub fields : All Fits (asked p.scope req)
  pub tags : All (λ (t : String × String). tag_of req.tags t.0 ≡ t.1) p.scope.tags
  pub expression : (match_expr p ≡ "") ⊎ (evaluate_expression req (match_expr p) ≡ ok true)

match_string-Fits : (w v : String) → match_string w v ≡ true → Fits (w, v)
unfolding match_string
match_string-Fits w v h = ground (arith, h, eq_iff w "", eq_iff w v)

match_tags-All :
    (tags wanted : StringMap)
    → match_tags tags wanted ≡ true
    → All (λ (t : String × String). tag_of tags t.0 ≡ t.1) wanted
unfolding match_tags
match_tags-All tags [] h = tt
match_tags-All tags ((k, v) ∷ rest) h =
    let now : tag_of tags k ≡ v = ground (arith, h, eq_iff (tag_of tags k) v) in
    let later : match_tags tags rest ≡ true = ground (arith, h) in
    (now, match_tags-All tags rest later)

is_ok_true_lem : (r : Result Bool) → is_ok_true r ≡ true → r ≡ ok true
unfolding is_ok_true
is_ok_true_lem (ok b) h = ap ok h
is_ok_true_lem (err e) h = absurd (grind (arith, h))

all_match : List (String × String) → Bool
all_match [] = true
all_match ((w, v) ∷ rest) = match_string w v && all_match rest

all_match-Fits : (ps : List (String × String)) → all_match ps ≡ true → All Fits ps
unfolding all_match
all_match-Fits [] h = tt
all_match-Fits ((w, v) ∷ rest) h =
    let here : match_string w v ≡ true = ground (arith, h) in
    let later : all_match rest ≡ true = ground (arith, h) in
    (match_string-Fits w v here, all_match-Fits rest later)

-- The code's chain of tests, as one walk.
scope-all_match :
    (req : RequestContext) (s : PolicyScope)
    → matches_scope req s ≡ true
    → all_match (asked s req) ≡ true
unfolding matches_scope all_match
scope-all_match req s h = ground (arith, h)

pub matches-IsMeant :
    (req : RequestContext) (p : Policy) → matches_policy req p ≡ true → IsMeant req p
unfolding matches_policy matches_scope
matches-IsMeant req p h = record {
  fields = all_match-Fits (asked p.scope req) (scope-all_match req p.scope (ground (arith, h)));
  tags = match_tags-All req.tags p.scope.tags (ground (arith, h));
  expression =
      ground (
        arith,
        h,
        eq_iff (match_expr p) "",
        is_ok_true_lem (evaluate_expression req (match_expr p)),
      );
}
