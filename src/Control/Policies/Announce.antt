-- ===== src/Control/Policies/Announce.antt =====
-- Each of the policies' handlers of internal/adapter/http/controlplane.go over the store of
-- internal/store/policy/file/store.go.
use rlaas.Base.{ℕ, String, [], Bool, Option, some, ◌≡◌, refl, arith}
use rlaas.Base.Time.{Time}
use rlaas.Model.{StringMap, Policy}
use rlaas.Store.{PolicyStore, HistoryStore}
use rlaas.Store.Policies.{
  Payload, Disk, Stamps, upserted, deleted, upsert_policy, delete_policy, get_policy_by_id,
  list_policies, list_policy_audit, list_policy_versions,
}
use rlaas.Store.Policies.Kept.{
  file_store, file_history, DiskLaws, WasWritten, changes_written, reads_keep,
  get_policy_by_id_keeps,
}
use rlaas.Store.Policies.Lookup.{upsert, delete, change}
use rlaas.Control.{◌>>◌, Reply, fail, Serve, demand}
use rlaas.Control.Policies.{
  PoliciesHandlerConfig, Codec, HttpRequest, record_event, accept, store_policy, list_handler,
  audit_handler, versions_handler, fetch_handler, create_handler, validate_handler, restore,
  rollback_handler, rollout_handler, update_handler, remove_handler, handler_of, policies_handler,
  validated,
}
use rlaas.Control.Policies.Effects.{
  publications, Announced, Told, bind-Told, need-Silent, need_value-Silent, need_some-Silent,
  demand-Silent, answer-Told, write-Told, notified,
}
use rlaas.Control.Routes.{
  Route, list, create, validate, not_found, audit, versions, fetch, rollback, rollout, update,
  remove, route,
}

module _ {S : Type 0} {disk : Disk S} {stored : S → Payload} (laws : DiskLaws disk stored)
    (t : Stamps) (cfg : PoliciesHandlerConfig) (codec : Codec) where
  files : PolicyStore S
  unfolding file_store
  files = file_store disk t

  history : Option (HistoryStore S)
  unfolding file_history
  history = some (file_history disk t)

  upsert_written :
      (p : Policy) (s : S)
      → WasWritten stored (change (upsert t p) (stored s)) (stored s) (upsert_policy disk t p s)
  unfolding upsert_policy change
  upsert_written p = changes_written laws (upserted t p)

  delete_written :
      (id : String) (s : S)
      → WasWritten stored (change (delete t id) (stored s)) (stored s) (delete_policy disk t id s)
  unfolding delete_policy change
  delete_written id = changes_written laws (deleted t id)

  store_policy-Told :
      (status : ℕ) (action name : String) (tags : StringMap) (p : Policy)
      → Told stored cfg (store_policy files history cfg codec status action name tags p)
  unfolding store_policy accept files file_store publications fail
  store_policy-Told status action name tags p =
      write-Told stored cfg _ _ (upsert_policy disk t p) (upsert t p) action refl
        (notified cfg p.policy_id action name tags) (upsert_written p)

  list-Told : Told stored cfg (list_handler files history cfg codec)
  unfolding list_handler files file_store fail accept list_policies publications record_event
  list-Told =
      bind-Told stored cfg _
        (need-Silent stored cfg _ (list_policies disk) refl (reads_keep laws _ (λ pl s. refl)))
        (λ all. answer-Told stored cfg _ (ground arith))

  -- Behind the check of the id.
  named-Told :
      (bad : Reply) (b : Bool) (m : Serve S Reply)
      → publications bad.events ≡ []
      → Told stored cfg m
      → Told stored cfg (demand bad b >> m)
  named-Told bad b m quiet told =
      bind-Told stored cfg (λ _. m) (demand-Silent stored cfg bad b quiet) (λ _. told)

  audit-Told : (id : String) → Told stored cfg (audit_handler files history cfg codec id)
  unfolding audit_handler history file_history fail accept list_policy_audit publications
  audit-Told id = named-Told _ _ _ refl (
      bind-Told stored cfg _
        (need-Silent stored cfg _ (list_policy_audit disk id) refl
          (reads_keep laws _ (λ pl s. refl)))
        (λ all. answer-Told stored cfg _ refl))

  versions-Told : (id : String) → Told stored cfg (versions_handler files history cfg codec id)
  unfolding versions_handler history file_history fail accept list_policy_versions publications
  versions-Told id = named-Told _ _ _ refl (
      bind-Told stored cfg _
        (need-Silent stored cfg _ (list_policy_versions disk id) refl
          (reads_keep laws _ (λ pl s. refl)))
        (λ all. answer-Told stored cfg _ refl))

  fetch-Told : (id : String) → Told stored cfg (fetch_handler files history cfg codec id)
  unfolding fetch_handler files file_store fail accept publications
  fetch-Told id = named-Told _ _ _ refl (
      bind-Told stored cfg _
        (need-Silent stored cfg _ (get_policy_by_id disk id) refl (get_policy_by_id_keeps laws id))
        (λ all. answer-Told stored cfg _ refl))

  create-Told :
      (now : Time) (body : String)
      → Told stored cfg (create_handler files history cfg codec now body)
  unfolding create_handler fail publications
  create-Told now body =
      bind-Told stored cfg _ (need_value-Silent stored cfg _ (codec.policy body) refl)
        (λ p. store_policy-Told _ _ _ _ _)

  validate-Told : (body : String) → Told stored cfg (validate_handler files history cfg codec body)
  unfolding validate_handler fail publications validated accept record_event
  validate-Told body =
      bind-Told stored cfg _ (need_value-Silent stored cfg _ (codec.policy body) refl)
        (λ p. answer-Told stored cfg _ (ground arith))

  rollback-Told :
      (id body : String) → Told stored cfg (rollback_handler files history cfg codec id body)
  unfolding rollback_handler history file_history fail publications list_policy_versions restore
  rollback-Told id body = named-Told _ _ _ refl (
      bind-Told stored cfg _ (need_value-Silent stored cfg _ (codec.version body) refl) (λ v.
        bind-Told stored cfg _
          (need-Silent stored cfg _ (list_policy_versions disk id) refl
            (reads_keep laws _ (λ pl s. refl)))
          (λ vs.
            bind-Told stored cfg _ (need_some-Silent stored cfg _ _ refl)
              (λ selected. store_policy-Told _ _ _ _ _))))

  rollout-Told :
      (id body : String) → Told stored cfg (rollout_handler files history cfg codec id body)
  unfolding rollout_handler fail publications files file_store
  rollout-Told id body = named-Told _ _ _ refl (
      bind-Told stored cfg _ (need_value-Silent stored cfg _ (codec.percent body) refl) (λ percent.
        named-Told _ _ _ refl (
          bind-Told stored cfg _
            (need-Silent stored cfg _ (get_policy_by_id disk id) refl
              (get_policy_by_id_keeps laws id))
            (λ p. store_policy-Told _ _ _ _ _))))

  update-Told :
      (id body : String) → Told stored cfg (update_handler files history cfg codec id body)
  unfolding update_handler fail publications
  update-Told id body = named-Told _ _ _ refl (
      bind-Told stored cfg _ (need_value-Silent stored cfg _ (codec.policy body) refl)
        (λ p. store_policy-Told _ _ _ _ _))

  remove-Told : (id : String) → Told stored cfg (remove_handler files history cfg codec id)
  unfolding remove_handler files file_store fail accept publications
  remove-Told id = named-Told _ _ _ refl (
      write-Told stored cfg _ _ (delete_policy disk t id) (delete t id) "delete" refl
        (notified cfg id "delete" "policy_delete" _) (delete_written id))

  handler-Told :
      (now : Time) (body : String) (r : Route)
      → Told stored cfg (handler_of files history cfg codec now body r)
  unfolding handler_of fail publications
  handler-Told now body list = list-Told
  handler-Told now body (audit id) = audit-Told id
  handler-Told now body (versions id) = versions-Told id
  handler-Told now body (fetch id) = fetch-Told id
  handler-Told now body create = create-Told now body
  handler-Told now body validate = validate-Told body
  handler-Told now body (rollback id) = rollback-Told id body
  handler-Told now body (rollout id) = rollout-Told id body
  handler-Told now body (update id) = update-Told id body
  handler-Told now body (remove id) = remove-Told id
  handler-Told now body not_found = answer-Told stored cfg _ refl

-- Whatever the request and whatever fails, over a file that keeps what is written a call of the policies'
-- handler either changes nothing in the store and announces nothing, or makes one change of one policy and, if
-- there is a hook for it, announces that policy once.
pub changes_published :
    {S : Type 0} {disk : Disk S} {stored : S → Payload}
    → DiskLaws disk stored
    → (t : Stamps) (cfg : PoliciesHandlerConfig) (codec : Codec) (now : Time) (r : HttpRequest)
      (s : S)
    → Announced cfg
        (policies_handler (file_store disk t) (some (file_history disk t)) cfg codec now r s).0
        (stored s)
        (stored
          (policies_handler (file_store disk t) (some (file_history disk t)) cfg codec now r s).1)
unfolding policies_handler Told file_store files history
changes_published laws t cfg codec now r s =
    handler-Told laws t cfg codec now r.body (route r.method r.path) s
