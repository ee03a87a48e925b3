-- ===== src/Control/Policies.antt =====
-- The policies' handlers of internal/adapter/http/controlplane.go, over any policy store.
pub mod Effects
pub mod Announce
pub mod Choice
pub mod Outcomes
pub mod Rollback
use Prim.Native.Nat.{ℕ}
use rlaas.Base.{
  String, List, [], ◌∷◌, ◌++◌, Bool, true, false, Option, none, some, not, ◌||◌, ◌==◌, ◌<>◌,
  format_int, if◌then◌else◌,
}
use rlaas.Base.Int.{pos, ltb_ℤ}
use rlaas.Base.Int64.{Int64}
use rlaas.Base.Time.{Time, unix_nano}
use rlaas.Base.Exec.{Result, ok, err, Exec}
use rlaas.Model.{StringMap, Policy, PolicyVersion}
use rlaas.Store.{PolicyStore, HistoryStore}
use rlaas.Control.{
  Body, message, no_content, valid, one_policy, policies, audit_trail, version_list, Response,
  Event, publish, recorded, Reply, fail, Serve, ◌>>=◌, ◌>>◌, need, need_value, need_some, demand,
  answer, served,
}
use rlaas.Control.Routes.{
  Route, list, create, validate, not_found, audit, versions, fetch, rollback, rollout, update,
  remove, route,
}
use rlaas.Control.Rules.{validate_policy, select_version_for_rollback}

-- Which hooks there are.
pub record PoliciesHandlerConfig : Type 0 where
  pub notifier : Bool
  pub analytics : Bool

-- The decoders of the bodies.
pub record Codec : Type 0 where
  pub policy : String → Result Policy
  pub version : String → Result Int64
  pub percent : String → Result Int64

pub record HttpRequest : Type 0 where
  pub method : String
  pub path : String
  pub body : String

unfoldable pub notify : PoliciesHandlerConfig → String → String → List Event
notify cfg id action =
    if cfg.notifier
    then publish "policy.changed" (("policy_id", id) ∷ ("action", action) ∷ []) ∷ []
    else []

unfoldable pub record_event : PoliciesHandlerConfig → String → StringMap → List Event
record_event cfg name tags = if cfg.analytics then recorded name tags ∷ [] else []

unfoldable pub accept : ℕ → Body → List Event → Reply
accept status body events = record {
  response = record { status = status; body = body };
  events = events;
}

abbrev missing_id : Reply
missing_id = fail 400 "missing policy id"

abbrev invalid_request : Reply
invalid_request = fail 400 "invalid request"

abbrev store_error : Reply
store_error = fail 500 "policy store error"

abbrev no_policy : Reply
no_policy = fail 404 "policy not found"

abbrev no_version : Reply
no_version = fail 404 "policy version not found"

-- The reply to a valid policy.
validated : PoliciesHandlerConfig → Result (Unit {0}) → Reply
unfolding accept fail record_event
validated cfg (err why) = fail 400 why
validated cfg (ok _) = accept 200 valid (record_event cfg "policy_validate" (("status", "ok") ∷ []))

module _ {S : Type 0} (ps : PolicyStore S) (history : Option (HistoryStore S))
    (cfg : PoliciesHandlerConfig) (codec : Codec) where
  unfoldable pub list_handler : Serve S Reply
  unfolding accept record_event
  list_handler = do
    all ← need store_error ps.list_policies
    answer (accept 200 (policies all) (record_event cfg "policy_list" (("status", "ok") ∷ [])))

  unfoldable pub audit_handler : String → Serve S Reply
  unfolding accept fail
  audit_handler id = do
    h ← need_some (fail 501 "policy history not supported") history
    demand missing_id (not (id == ""))
    entries ← need store_error (h.list_policy_audit id)
    answer (accept 200 (audit_trail entries) [])

  unfoldable pub versions_handler : String → Serve S Reply
  unfolding accept fail
  versions_handler id = do
    h ← need_some (fail 501 "policy versions not supported") history
    demand missing_id (not (id == ""))
    vs ← need store_error (h.list_policy_versions id)
    answer (accept 200 (version_list vs) [])

  unfoldable pub fetch_handler : String → Serve S Reply
  unfolding accept
  fetch_handler id = do
    demand missing_id (not (id == ""))
    p ← need no_policy (ps.get_policy_by_id id)
    answer (accept 200 (one_policy p) [])

  -- Storing the policy, and the hooks behind it.
  unfoldable pub store_policy : ℕ → String → String → StringMap → Policy → Serve S Reply
  unfolding accept notify record_event
  store_policy status action name tags p = do
    need store_error (ps.upsert_policy p)
    answer
        (accept status (one_policy p) (notify cfg p.policy_id action ++ record_event cfg name tags))

  named : Time → Policy → Policy
  named now p =
      if p.policy_id == ""
      then record p { policy_id = "policy-" <> format_int (unix_nano now) }
      else p

  unfoldable pub create_handler : Time → String → Serve S Reply
  unfolding named
  create_handler now body = do
    p ← need_value invalid_request (codec.policy body)
    store_policy 201 "create" "policy_create" (("policy_id", (named now p).policy_id) ∷ [])
        (named now p)

  unfoldable pub validate_handler : String → Serve S Reply
  unfolding validated
  validate_handler body = do
    p ← need_value invalid_request (codec.policy body)
    answer (validated cfg (validate_policy p))

  unfoldable pub restore : String → PolicyVersion → Serve S Reply
  restore id selected =
      store_policy 200 "rollback" "policy_rollback"
        (("policy_id", id) ∷ ("version", format_int selected.version) ∷ [])
        (record selected.snapshot { policy_id = id })

  unfoldable pub rollback_handler : String → String → Serve S Reply
  unfolding fail
  rollback_handler id body = do
    h ← need_some (fail 501 "policy rollback not supported") history
    demand missing_id (not (id == ""))
    requested ← need_value invalid_request (codec.version body)
    vs ← need store_error (h.list_policy_versions id)
    selected ← need_some no_version (select_version_for_rollback vs requested)
    restore id selected

  unfoldable pub rollout_handler : String → String → Serve S Reply
  unfolding fail
  rollout_handler id body = do
    demand missing_id (not (id == ""))
    percent ← need_value invalid_request (codec.percent body)
    demand (fail 400 "rollout_percent must be 0..100")
        (not (ltb_ℤ percent (pos 0) || ltb_ℤ (pos 100) percent))
    p ← need no_policy (ps.get_policy_by_id id)
    store_policy 200 "rollout_update" "policy_rollout_update" (("policy_id", p.policy_id) ∷ [])
        (record p { rollout_percent = percent })

  unfoldable pub update_handler : String → String → Serve S Reply
  update_handler id body = do
    demand missing_id (not (id == ""))
    p ← need_value invalid_request (codec.policy body)
    store_policy 200 "update" "policy_update" (("policy_id", id) ∷ []) (record p { policy_id = id })

  unfoldable pub remove_handler : String → Serve S Reply
  unfolding accept notify record_event
  remove_handler id = do
    demand missing_id (not (id == ""))
    need store_error (ps.delete_policy id)
    answer (
        accept 204 no_content
          (notify cfg id "delete" ++ record_event cfg "policy_delete" (("policy_id", id) ∷ [])))

  unfoldable pub handler_of : Time → String → Route → Serve S Reply
  unfolding fail
  handler_of now body list = list_handler
  handler_of now body (audit id) = audit_handler id
  handler_of now body (versions id) = versions_handler id
  handler_of now body (fetch id) = fetch_handler id
  handler_of now body create = create_handler now body
  handler_of now body validate = validate_handler body
  handler_of now body (rollback id) = rollback_handler id body
  handler_of now body (rollout id) = rollout_handler id body
  handler_of now body (update id) = update_handler id body
  handler_of now body (remove id) = remove_handler id
  handler_of now body not_found = answer (fail 404 "404 page not found")

  -- `now` is the clock's reading if `create` asks for it.
  unfoldable pub policies_handler : Time → HttpRequest → S → Reply × S
  policies_handler now r = served (handler_of now r.body (route r.method r.path))
