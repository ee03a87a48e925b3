-- ===== src/Engine/Matcher.antt =====
-- internal/engine/matcher/matcher.go.
pub mod Winner
use Prim.Native.Nat.{ℕ, ◌+◌, ◌*◌}
use rlaas.Base.{
  String, List, [], ◌∷◌, Bool, true, false, Option, none, some, ◌&&◌, ◌||◌, not, ◌==◌, codes, ltb,
  ◌=ℕ◌, if◌then◌else◌,
}
use rlaas.Base.Lists.{length, keep_if}
use rlaas.Base.Int.{ltb_ℤ, ◌=ℤ◌}
use rlaas.Base.TextOrder.{text_gt}
use rlaas.Base.Trim.{trim_space, trim_quotes, split_and, split_once, after_prefix}
use rlaas.Base.Exec.{Result, ok, err}
use rlaas.Model.{StringMap, RequestContext, PolicyScope, Policy}

-- `m[k]`, the empty text if it is missing.
unfoldable pub tag_of : StringMap → String → String
tag_of [] k = ""
tag_of ((j, v) ∷ rest) k = if j == k then v else tag_of rest k

unfoldable pub match_string : String → String → Bool
match_string scope val = (scope == "") || (scope == val)

-- The walk over the scope's tags.
unfoldable pub match_tags : StringMap → StringMap → Bool
unfolding tag_of
match_tags req_tags [] = true
match_tags req_tags ((k, v) ∷ rest) = (tag_of req_tags k == v) && match_tags req_tags rest

unfoldable pub matches_scope : RequestContext → PolicyScope → Bool
matches_scope req s =
    match_string s.org_id req.org_id
    && match_string s.tenant_id req.tenant_id
    && match_string s.application req.application
    && match_string s.service req.service
    && match_string s.environment req.environment
    && match_string s.signal_type req.signal_type
    && match_string s.operation req.operation
    && match_string s.endpoint req.endpoint
    && match_string s.method req.method
    && match_string s.user_id req.user_id
    && match_string s.api_key req.api_key
    && match_string s.client_id req.client_id
    && match_string s.source_ip req.source_ip
    && match_string s.region req.region
    && match_string s.resource req.resource
    && match_string s.severity req.severity
    && match_string s.span_name req.span_name
    && match_string s.topic req.topic
    && match_string s.consumer_group req.consumer_group
    && match_string s.job_type req.job_type
    && match_tags req.tags s.tags

unfoldable pub resolve_expr_field : RequestContext → String → String
unfolding tag_of after_prefix
resolve_expr_field req field =
    if field == "org_id"
    then req.org_id
    else if field == "tenant_id"
    then req.tenant_id
    else if field == "application"
    then req.application
    else if field == "service"
    then req.service
    else if field == "environment"
    then req.environment
    else if field == "signal_type"
    then req.signal_type
    else if field == "operation"
    then req.operation
    else if field == "endpoint"
    then req.endpoint
    else if field == "method"
    then req.method
    else if field == "user_id"
    then req.user_id
    else if field == "api_key"
    then req.api_key
    else if field == "client_id"
    then req.client_id
    else if field == "source_ip"
    then req.source_ip
    else if field == "region"
    then req.region
    else if field == "resource"
    then req.resource
    else if field == "severity"
    then req.severity
    else if field == "span_name"
    then req.span_name
    else if field == "topic"
    then req.topic
    else if field == "consumer_group"
    then req.consumer_group
    else if field == "job_type"
    then req.job_type
    else elim (after_prefix (codes "tag.") field) [ some name ↦ tag_of req.tags name | none ↦ "" ]

-- One clause: the sides of `==`, else of `!=`, compared with the request. `none` if it has neither.
unfoldable pub evaluate_clause : RequestContext → String → Option Bool
unfolding trim_space trim_quotes split_once resolve_expr_field
evaluate_clause req clause = elim (split_once b'=' b'=' clause) [
  | some (left, right) ↦
      some (resolve_expr_field req (trim_space left) == trim_quotes (trim_space right))
  | none ↦ elim (split_once b'!' b'=' clause) [
    | some (left, right) ↦
        some (not (resolve_expr_field req (trim_space left) == trim_quotes (trim_space right)))
    | none ↦ none
  ]
]

-- The loop over the clauses stops at the first that fails; an empty clause is passed over.
unfoldable pub evaluate_clauses : RequestContext → List String → Result Bool
unfolding evaluate_clause trim_space
evaluate_clauses req [] = ok true
evaluate_clauses req (raw ∷ rest) =
    let clause = trim_space raw in
    let later = evaluate_clauses req rest in
    if clause == "" then later else elim (evaluate_clause req clause) [
      | none ↦ err "invalid clause"
      | some holds ↦ if holds then later else ok false
    ]

unfoldable pub evaluate_expression : RequestContext → String → Result Bool
unfolding evaluate_clauses split_and
evaluate_expression req expr = evaluate_clauses req (split_and expr)

-- The expression of the metadata, if there is any metadata.
unfoldable pub match_expr : Policy → String
unfolding tag_of trim_space
match_expr p = elim p.metadata [ none ↦ "" | some m ↦ trim_space (tag_of m "match_expr") ]

-- `err == nil && ok`.
unfoldable pub is_ok_true : Result Bool → Bool
is_ok_true (ok b) = b
is_ok_true (err e) = false

unfoldable pub matches_policy : RequestContext → Policy → Bool
unfolding is_ok_true evaluate_expression match_expr
matches_policy req p =
    matches_scope req p.scope
    && ((match_expr p == "") || is_ok_true (evaluate_expression req (match_expr p)))

unfoldable pub match : RequestContext → List Policy → List Policy
unfolding keep_if
match req policies = keep_if (matches_policy req) policies

-- 10 for a field that is set.
points : String → ℕ
points field = if field == "" then 0 else 10

unfoldable pub specificity_score : PolicyScope → ℕ
unfolding points
specificity_score s =
    points s.user_id
    + points s.api_key
    + points s.client_id
    + points s.endpoint
    + points s.method
    + points s.operation
    + points s.service
    + points s.application
    + points s.tenant_id
    + points s.org_id
    + points s.signal_type
    + points s.environment
    + points s.source_ip
    + points s.region
    + points s.resource
    + points s.severity
    + points s.span_name
    + points s.topic
    + points s.consumer_group
    + points s.job_type
    + length s.tags

-- The order of `SelectWinner`'s sort: `a` goes before `b`.
unfoldable pub goes_before : Policy → Policy → Bool
goes_before a b =
    let sa = specificity_score a.scope in
    let sb = specificity_score b.scope in
    if not (sa =ℕ sb)
    then ltb sb sa
    else if not (a.priority =ℤ b.priority)
    then ltb_ℤ b.priority a.priority
    else if not (a.policy_id == b.policy_id)
    then text_gt a.policy_id b.policy_id
    else false

-- `sort.SliceStable`: what goes before nothing keeps its place.
unfoldable pub insert_policy : Policy → List Policy → List Policy
insert_policy p [] = p ∷ []
insert_policy p (q ∷ qs) =
    let rest = q ∷ insert_policy p qs in if goes_before q p then rest else p ∷ q ∷ qs

unfoldable pub sort_policies : List Policy → List Policy
sort_policies [] = []
sort_policies (p ∷ ps) = insert_policy p (sort_policies ps)

first_policy : List Policy → Result Policy
first_policy [] = err "no matching policy"
first_policy (p ∷ ps) = ok p

unfoldable pub select_winner : List Policy → Result Policy
unfolding first_policy
select_winner policies = first_policy (sort_policies policies)
