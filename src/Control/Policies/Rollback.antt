-- ===== src/Control/Policies/Rollback.antt =====
-- What a rollback of internal/adapter/http/controlplane.go does to the store of
-- internal/store/policy/file/store.go.
use Prim.Native.Nat.{◌<◌, ◌^◌}
use mathlib.Core.Path.{subst}
use mathlib.Core.Option.{map}
use rlaas.Base.{
  String, List, [], true, Option, none, some, ◌==◌, ◌≡◌, refl, arith, ◌∙◌, sym, ap, inl, inr, not,
}
use rlaas.Base.Exec.{Result, ok, err, continue}
use rlaas.Base.Int64.{Int64}
use rlaas.Base.Lists.{length}
use rlaas.Base.Maps.{get_or, some_inj}
use rlaas.Model.{Policy, PolicyVersion}
use rlaas.Store.Policies.{Payload, Disk, Stamps, upserted, upsert_policy, list_policy_versions}
use rlaas.Store.Policies.Kept.{
  file_store, file_history, DiskLaws, WasRead, WasWritten, changes_written,
}
use rlaas.Store.Policies.Lookup.{Change, upsert, change, change_all}
use rlaas.Store.Policies.Versions.{upserts_of, empty_payload, versions-Numbered}
use rlaas.Control.{Reply, one_policy, fail, go, Serve, served, proceed, flow_of, flow_some}
use rlaas.Control.Rules.{select_version_for_rollback}
use rlaas.Control.Policies.{
  PoliciesHandlerConfig, Codec, accept, store_policy, restore, rollback_handler,
}
use rlaas.Control.Policies.Outcomes.{
  UpsertFails, StoreFails, Ended, RolledBack, Ended-for, upsert-failed,
}
use rlaas.Control.Policies.Choice.{
  snapshot_of, policy_to_restore, select-Numbered, Holds, restore-Holds, upserts-All,
}

module _ {S : Type 0} {disk : Disk S} {stored : S → Payload} (laws : DiskLaws disk stored)
    (t : Stamps) (cfg : PoliciesHandlerConfig) (codec : Codec) (id : String) where
  restore_on_disk : PolicyVersion → Serve S Reply
  unfolding file_store file_history restore
  restore_on_disk = restore (file_store disk t) (some (file_history disk t)) cfg codec id

  after_write :
      (good : Reply) (p : Policy) (before : Payload) (s : S) (x : Result (Unit {0}) × S)
      → good.response ≡ record { status = 200; body = one_policy p }
      → ((why : String) → x.0 ≡ err why → UpsertFails disk stored t p s)
      → WasWritten stored (change (upsert t p) before) before x
      → Ended disk stored t (UpsertFails disk stored t p s) (some p) before (
          served
            (λ _. proceed (flow_of (fail 500 "policy store error") x.0) (λ _ s. (go good, s)) x.1)
            x.1)
  unfolding fail
  after_write good p before s (ok _, s') says failed held = inr (says, held)
  after_write good p before s (err why, s') says failed held = inl (refl, held, failed why refl)

  under_id :
      (v : PolicyVersion) (p : Policy)
      → v.snapshot ≡ p
      → p.policy_id ≡ id
      → record v.snapshot { policy_id = id } ≡ p
  under_id v p same own =
      ap {A = Policy} {B = Policy} (λ r. record r { policy_id = id }) same
      ∙ ap {A = String} {B = Policy} (λ i. record p { policy_id = i }) (sym own)

  restored :
      (v : PolicyVersion) (p : Policy) (s : S)
      → record v.snapshot { policy_id = id } ≡ p
      → Ended disk stored t
          (StoreFails disk stored t (some p) s)
          (some p)
          (stored s)
          (served (restore_on_disk v) s)
  unfolding restore_on_disk restore store_policy accept upsert_policy file_store change fail
  restored v p s same =
      let q = record v.snapshot { policy_id = id } in
      subst
        (λ r.
          Ended disk stored t (StoreFails disk stored t (some r) s) (some r) (stored s)
            (served (restore_on_disk v) s))
        same
        (after_write _ q (stored s) s (upsert_policy disk t q s) refl
          (λ why. upsert-failed disk stored t q (disk.read s) s why refl)
          (changes_written laws (upserted t q) s))

  -- Behind the selection.
  selected :
      (choice : Option PolicyVersion) (wanted : Option Policy) (s : S)
      → map snapshot_of choice ≡ wanted
      → Holds (λ p. p.policy_id ≡ id) wanted
      → Ended disk stored t (StoreFails disk stored t wanted s) wanted (stored s) (
          served
            (λ s.
              proceed (flow_some (fail 404 "policy version not found") choice) restore_on_disk s)
            s)
  unfolding fail
  selected none none s same own = inr (refl, refl)
  selected none (some p) s same own = absurd (grind (arith, same))
  selected (some v) none s same own = absurd (grind (arith, same))
  selected (some v) (some p) s same own = restored v p s (under_id v p (some_inj same) own)

  abbrev Chosen : Int64 → Option Policy → Payload → Type 0
  Chosen requested wanted pl =
      map snapshot_of (select_version_for_rollback (get_or (pl.versions id) []) requested) ≡ wanted

  -- Behind the read of the versions.
  listed :
      (requested : Int64) (wanted : Option Policy) (before : Payload) (start : S)
      (x : Result Payload × S)
      → disk.read start ≡ x
      → Chosen requested wanted before
      → Holds (λ p. p.policy_id ≡ id) wanted
      → WasRead stored before x
      → RolledBack disk stored t wanted before start (
          served
            (λ _.
              proceed
                (flow_of
                  (fail 500 "policy store error")
                  (continue x.0 (λ pl s. (ok (get_or (pl.versions id) []), s)) x.1).0)
                (λ vs s.
                  proceed
                    (flow_some
                      (fail 404 "policy version not found")
                      (select_version_for_rollback vs requested))
                    restore_on_disk
                    s)
                (continue x.0 (λ pl s. (ok (get_or (pl.versions id) []), s)) x.1).1)
            x.1)
  unfolding fail
  listed requested wanted before start (err why, s) e same own held =
      inl (refl, held, inl (why, ap {A = Result Payload × S} (λ y. y.0) e))
  listed requested wanted before start (ok pl, s) e same own (read, held) =
      let here = subst (Chosen requested wanted) (sym read) same in
      let behind : S → Reply × S = λ s.
        served
          (λ s.
            proceed
              (flow_some (fail 404 "policy version not found")
                (select_version_for_rollback (get_or (pl.versions id) []) requested))
              restore_on_disk s)
          s in
      Ended-for disk stored t wanted before (behind s)
        (λ failed. inr (
          subst (StoreFails disk stored t wanted) (sym (ap {A = Result Payload × S} (λ y. y.1) e))
            failed))
        (subst (λ b. Ended disk stored t (StoreFails disk stored t wanted s) wanted b (behind s))
          held (selected _ wanted s here own))

-- On a history of fewer than 2^62 changes of an empty store: a rollback of a policy that names a positive version
-- stores the policy once more that was stored under the id in that place, and one that names none restores the
-- last but one; without such a policy it answers 404 and changes nothing. The only other answer is 500, with nothing
-- changed, and only if the file could not be read, or could then not be read again or written with the policy.
pub rollback_restores :
    {S : Type 0} {disk : Disk S} {stored : S → Payload}
    → DiskLaws disk stored
    → (t : Stamps) (cfg : PoliciesHandlerConfig) (codec : Codec) (id body : String)
      (requested : Int64) (cs : List Change) (s : S)
    → not (id == "") ≡ true
    → codec.version body ≡ ok requested
    → stored s ≡ change_all cs empty_payload
    → length cs < 2 ^ 62
    → RolledBack disk stored t (policy_to_restore requested (upserts_of id cs)) (stored s) s (
        served
          (rollback_handler (file_store disk t) (some (file_history disk t)) cfg codec id body)
          s)
unfolding rollback_handler file_store file_history list_policy_versions restore_on_disk fail
rollback_restores {S} {disk} {stored} laws t cfg codec id body requested cs s named decoded held
      small =
    let ps = upserts_of id cs in
    let choice =
      subst
        (λ pl.
          map snapshot_of (select_version_for_rollback (get_or (pl.versions id) []) requested)
          ≡ policy_to_restore requested ps)
        (sym held) (select-Numbered requested _ ps (versions-Numbered id cs small)) in
    rw named (
      rw decoded (
        listed laws t cfg codec id requested (policy_to_restore requested ps) (stored s) s
          (disk.read s) refl choice (restore-Holds _ requested ps (upserts-All id cs))
          (laws.read_law s)))
