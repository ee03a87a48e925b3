-- ===== src/Control/Routes.antt =====
-- The `switch` of `PoliciesHandlerWithConfig` in internal/adapter/http/controlplane.go on the method and the path.
use rlaas.Base.{
  String, Bool, true, false, Option, none, some, ◌==◌, ◌≡◌, refl, codes, if◌then◌else◌,
}
use rlaas.Base.Trim.{after_prefix, before_suffix}

pub data Route : Type 0 where
  list create validate not_found : Route
  audit versions fetch rollback rollout update remove : String → Route

-- `strings.TrimSuffix`.
trim_suffix : String → String → String
unfolding before_suffix
trim_suffix suffix s = elim (before_suffix suffix s) [ none ↦ s | some front ↦ front ]

has_suffix : String → String → Bool
unfolding before_suffix
has_suffix suffix s = elim (before_suffix suffix s) [ none ↦ false | some front ↦ true ]

-- The part of the path behind "/rlaas/v1/policies/".
policy_path : String → Option String
unfolding after_prefix
policy_path path = after_prefix (codes "/rlaas/v1/policies/") path

get_route : String → Option String → Route
unfolding trim_suffix has_suffix
get_route path none = if path == "/rlaas/v1/policies" then list else not_found
get_route path (some rest) =
    if has_suffix "/audit" path
    then audit (trim_suffix "/audit" rest)
    else if has_suffix "/versions" path
    then versions (trim_suffix "/versions" rest)
    else fetch rest

post_route : String → Option String → Route
unfolding trim_suffix has_suffix
post_route path none = if path == "/rlaas/v1/policies" then create else not_found
post_route path (some rest) =
    if rest == "validate"
    then validate
    else if has_suffix "/rollback" path
    then rollback (trim_suffix "/rollback" rest)
    else if has_suffix "/rollout" path
    then rollout (trim_suffix "/rollout" rest)
    else not_found

on_policy : (String → Route) → Option String → Route
on_policy f none = not_found
on_policy f (some rest) = f rest

unfoldable pub route : String → String → Route
unfolding policy_path get_route post_route on_policy
route method path =
    if method == "GET"
    then get_route path (policy_path path)
    else if method == "POST"
    then post_route path (policy_path path)
    else if method == "PUT"
    then on_policy update (policy_path path)
    else if method == "DELETE"
    then on_policy remove (policy_path path)
    else not_found

audit_sample : route "GET" "/rlaas/v1/policies/p1/audit" ≡ audit "p1"
unfolding route
audit_sample = refl

-- A policy whose id is "audit" cannot be fetched: the path asks for its audit trail.
shadowed_sample : route "GET" "/rlaas/v1/policies/audit" ≡ audit "audit"
unfolding route
shadowed_sample = refl

rollback_sample : route "POST" "/rlaas/v1/policies/p1/rollback" ≡ rollback "p1"
unfolding route
rollback_sample = refl
