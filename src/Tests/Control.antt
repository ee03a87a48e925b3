-- ===== src/Tests/Control.antt =====
-- The control plane at concrete calls.
use Prim.Native.Nat.{ℕ, suc, ◌+◌, ◌≤◌}
use rlaas.Base.{String, List, [], ◌∷◌, true, none, some, ◌≡◌, refl, arith}
use rlaas.Base.Int.{pos}
use rlaas.Base.Maps.{put, empty}
use rlaas.Base.Exec.{Result, ok}
use rlaas.Base.Workers.{set_elem}
use rlaas.Model.{zero_decision, StringMap}
use rlaas.Store.Policies.{Payload, Disk, Stamps}
use rlaas.Store.Policies.Kept.{DiskLaws, file_store, file_history}
use rlaas.Store.Policies.Lookup.{Change, upsert, change_all}
use rlaas.Store.Policies.Versions.{empty_payload, upserts_of}
use rlaas.Store.Cache.{PolicyCache, get, find}
use rlaas.Store.Cache.Load.{
  idle, moved, calling, loading, Flights, Reach, here, next, enter, miss, lead,
}
use rlaas.Store.Cache.Load.Single.{leaders, one_load_at_a_time}
use rlaas.Control.{served}
use rlaas.Control.Policies.{
  PoliciesHandlerConfig, Codec, HttpRequest, policies_handler, rollback_handler,
}
use rlaas.Control.Policies.Effects.{Announced}
use rlaas.Control.Policies.Announce.{changes_published}
use rlaas.Control.Policies.Choice.{policy_to_restore}
use rlaas.Control.Policies.Outcomes.{RolledBack}
use rlaas.Control.Policies.Rollback.{rollback_restores}
use rlaas.Control.Leases.{
  LeaseEvaluator, acquire_handler, release_handler, released, refuse, lease_id_of,
}
use rlaas.Control.Leases.Once.{Call, acquire, release, call_all, lease_released_once}
use rlaas.Broker.{
  Broker, subscribe, new_distributed_broker, new_transport, publish, sent, receive, dispatch_local,
  text_length,
}
use rlaas.Broker.Delivery.{published_event_arrives}
use rlaas.Tests.Samples.{noon, acme_request, acme_policy}

-- A file that never fails.
abbrev disk : Disk Payload
disk = record { read = λ pl. (ok pl, pl); write = λ pl old. (ok tt, pl); stat = λ pl. (ok tt, pl) }

abbrev same : Payload → Payload
same pl = pl

disk-DiskLaws : DiskLaws disk same
disk-DiskLaws = record { read_law = λ pl. (refl, refl); write_law = λ pl old. refl }

abbrev stamps : Stamps
stamps = record { version_at = noon; id_at = noon; audit_at = noon }

abbrev hooks : PoliciesHandlerConfig
hooks = record { notifier = true; analytics = true }

abbrev codec : Codec
codec = record {
  policy = λ body. ok acme_policy;
  version = λ body. ok (pos 1);
  percent = λ body. ok (pos 50);
}

abbrev update_call : HttpRequest
update_call = record { method = "PUT"; path = "/rlaas/v1/policies/p1"; body = "{}" }

changes_published_example :
    Announced hooks
      (policies_handler
        (file_store disk stamps)
        (some (file_history disk stamps))
        hooks
        codec
        noon
        update_call
        empty_payload).0
      empty_payload
      (policies_handler
        (file_store disk stamps)
        (some (file_history disk stamps))
        hooks
        codec
        noon
        update_call
        empty_payload).1
changes_published_example =
    changes_published disk-DiskLaws stamps hooks codec noon update_call empty_payload

-- Stored, and changed.
abbrev changes : List Change
changes = upsert stamps acme_policy ∷ upsert stamps (record acme_policy { priority = pos 9 }) ∷ []

rollback_restores_example :
    RolledBack disk same stamps
      (policy_to_restore (pos 1) (upserts_of "p1" changes))
      (change_all changes empty_payload)
      (change_all changes empty_payload)
      (served
        (rollback_handler
          (file_store disk stamps)
          (some (file_history disk stamps))
          hooks
          codec
          "p1"
          "{}")
        (change_all changes empty_payload))
rollback_restores_example =
    rollback_restores disk-DiskLaws stamps hooks codec "p1" "{}" (pos 1) changes
      (change_all changes empty_payload) refl refl refl (omega arith)

-- Leases that are numbers; releasing one adds it up.
abbrev evaluator : LeaseEvaluator ℕ ℕ
evaluator = record {
  evaluate = λ req s. (ok zero_decision, s);
  start_concurrency_lease = λ req s. (ok (record zero_decision { allowed = true }, some 7), suc s);
  run = λ n s. (ok tt, s + n);
}

abbrev between : List Call
between = acquire (ok acme_request) "bb" ∷ release (ok "lease-bb") ∷ []

abbrev after : List Call
after = acquire (ok acme_request) "cc" ∷ release (ok "lease-aa") ∷ []

lease_released_once_example :
    let x =
      call_all evaluator between (acquire_handler evaluator (ok acme_request) "aa" (empty, 0)).1 in
    let y = release_handler evaluator (ok (lease_id_of "aa")) x in
    let z = call_all evaluator after y.1 in
    (y.0 ≡ released evaluator (evaluator.run 7 x.1).0)
    × (y.1.1 ≡ (evaluator.run 7 x.1).1)
    × (release_handler evaluator (ok (lease_id_of "aa")) z ≡ (refuse 404 "lease not found", z))
unfolding lease_id_of
lease_released_once_example =
    lease_released_once evaluator acme_request "aa" empty 0 1
      (record zero_decision { allowed = true }) 7 between after refl refl (refl, (refl, tt))
      (refl, (tt, tt))

-- An event as its only text.
abbrev encode : StringMap → Result String
encode [] = ok ""
encode ((k, v) ∷ rest) = ok v

abbrev decode : String → Result StringMap
decode s = ok (("policy_id", s) ∷ [])

abbrev listener : Broker ℕ
listener = subscribe "policy.changed" (λ event n. (true, suc n)) (new_distributed_broker "rlaas:")

abbrev sender : Broker ℕ
sender = new_distributed_broker "rlaas:"

published_event_arrives_example :
    (message : String × String) × (publish encode sender "policy.changed"
        (("policy_id", "p1") ∷ [])
        0
      ≡ sent message)
    × (receive decode listener (new_transport "rlaas:") message 0
        ≡ dispatch_local listener "policy.changed" (("policy_id", "p1") ∷ []) 0)
unfolding new_distributed_broker text_length
published_event_arrives_example =
    published_event_arrives encode decode sender listener (new_transport "rlaas:")
      (new_transport "rlaas:") "policy.changed" "p1" (("policy_id", "p1") ∷ []) 0 0 refl refl refl
      refl (omega arith)

abbrev cache : PolicyCache
cache = record { ttl = pos 1000000000; max_items = pos 10; items = [] }

abbrev alone : Flights
alone = record {
  cache = cache;
  sf_calls = put empty "acme" 0;
  next_call = 1;
  done = λ c. none;
  callers = loading "acme" 0 ∷ calling "acme" ∷ [];
}

-- One caller leads the load, and another comes.
two_callers : Reach (idle cache) alone
unfolding idle moved set_elem get find
two_callers =
    next
      (next (next (next here (enter "acme")) (miss 0 "acme" noon refl refl))
        (lead 0 "acme" refl refl))
      (enter "acme")

one_load_at_a_time_example : leaders "acme" alone.callers ≤ 1
one_load_at_a_time_example = one_load_at_a_time cache "acme" two_callers
