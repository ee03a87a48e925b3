-- ===== src/Store/Policies.antt =====
-- internal/store/policy/file/store.go: the policies with their history. A call under the store's lock is one
-- step. The file is a parameter: reading it into a payload and writing a payload to it, by `os` and
-- `encoding/json`, each of which may fail.
pub mod Kept
pub mod Lookup
pub mod Versions
use Prim.Native.Nat.{ℕ}
use rlaas.Base.{
  String, List, [], ◌∷◌, ◌++◌, Bool, true, false, Option, none, some, ◌&&◌, ◌||◌, not, ◌==◌, ◌<>◌,
  format_int, if◌then◌else◌,
}
use rlaas.Base.Lists.{keep_if}
use rlaas.Base.Int.{pos}
use rlaas.Base.Int64.{Int64, ◌+w◌}
use rlaas.Base.Time.{Time, unix, unix_nano}
use rlaas.Base.Maps.{Map, put, get_or}
use rlaas.Base.Exec.{Result, ok, err, Exec, pure, ◌>>=◌}
use rlaas.Model.{Policy, PolicyAuditEntry, PolicyVersion}

pub record Payload : Type 0 where
  pub policies : List Policy
  pub audits : List PolicyAuditEntry
  pub versions : Map (List PolicyVersion)

-- `readPayload` and `writePayload`, and `os.Stat` on the file's path.
pub record Disk (S : Type 0) : Type 0 where
  pub read : Exec S Payload
  pub write : Payload → Exec S (Unit {0})
  pub stat : Exec S (Unit {0})

-- The clock readings of a change: for the version's time, the audit's id and the audit's time.
pub record Stamps : Type 0 where
  pub version_at : Time
  pub id_at : Time
  pub audit_at : Time

-- The policies of a namespace: its own, and those of no namespace.
unfoldable pub in_namespace : String → Policy → Bool
in_namespace namespace p =
    (p.scope.tenant_id == namespace)
    || (p.scope.org_id == namespace)
    || ((p.scope.tenant_id == "") && (p.scope.org_id == ""))

unfoldable pub of_namespace : String → List Policy → List Policy
unfolding keep_if in_namespace
of_namespace namespace all = if namespace == "" then all else keep_if (in_namespace namespace) all

-- The first policy of an id.
unfoldable pub find_policy : String → List Policy → Option Policy
find_policy id [] = none
find_policy id (p ∷ ps) = if p.policy_id == id then some p else find_policy id ps

-- The loop of `UpsertPolicy`, and the `append` if it found nothing.
unfoldable pub replace_policy : Policy → List Policy → List Policy
replace_policy new [] = new ∷ []
replace_policy new (p ∷ ps) =
    let rest = replace_policy new ps in if p.policy_id == new.policy_id then new ∷ ps else p ∷ rest

-- The last policy of an id, which `DeletePolicy` records.
unfoldable pub last_policy : String → List Policy → Option Policy → Option Policy
last_policy id [] found = found
last_policy id (p ∷ ps) found = last_policy id ps (if p.policy_id == id then some p else found)

-- One more than the last version, else 1.
unfoldable pub next_version : List PolicyVersion → Int64
next_version [] = pos 1
next_version (v ∷ []) = v.version +w pos 1
next_version (v ∷ w ∷ vs) = next_version (w ∷ vs)

unfoldable pub upserted : Stamps → Policy → Payload → Payload
unfolding replace_policy find_policy next_version
upserted t p pl =
    let history = get_or (pl.versions p.policy_id) [] in
    record {
      policies = replace_policy p pl.policies;
      audits =
          pl.audits
          ++ record {
            audit_id = "audit-" <> format_int (unix_nano t.id_at);
            policy_id = p.policy_id;
            action_type = "upsert";
            changed_by = "";
            changed_at_unix = unix t.audit_at;
            old_value = find_policy p.policy_id pl.policies;
            new_value = some p;
          }
            ∷ [];
      versions = put pl.versions p.policy_id (
          history
          ++ record {
            policy_id = p.policy_id;
            version = next_version history;
            created_at_unix = unix t.version_at;
            snapshot = p;
          }
            ∷ []);
    }

unfoldable pub deleted : Stamps → String → Payload → Payload
unfolding last_policy keep_if
deleted t id pl = record pl {
  policies = keep_if (λ p. not (p.policy_id == id)) pl.policies;
  audits =
      pl.audits
      ++ record {
        audit_id = "audit-" <> format_int (unix_nano t.id_at);
        policy_id = id;
        action_type = "delete";
        changed_by = "";
        changed_at_unix = unix t.audit_at;
        old_value = last_policy id pl.policies none;
        new_value = none;
      }
        ∷ [];
}

found_policy : Option Policy → Result Policy
found_policy none = err "policy not found"
found_policy (some p) = ok p

module _ {S : Type 0} (disk : Disk S) where
  unfoldable pub load_policies : String → Exec S (List Policy)
  unfolding of_namespace
  load_policies namespace = do pl ← disk.read; pure (of_namespace namespace pl.policies)

  unfoldable pub get_policy_by_id : String → Exec S Policy
  unfolding found_policy
  get_policy_by_id id = do pl ← disk.read; λ s. (found_policy (find_policy id pl.policies), s)

  unfoldable pub upsert_policy : Stamps → Policy → Exec S (Unit {0})
  unfolding upserted
  upsert_policy t p = do pl ← disk.read; disk.write (upserted t p pl)

  unfoldable pub delete_policy : Stamps → String → Exec S (Unit {0})
  unfolding deleted
  delete_policy t id = do pl ← disk.read; disk.write (deleted t id pl)

  unfoldable pub list_policies : Exec S (List Policy)
  list_policies = do pl ← disk.read; pure pl.policies

  unfoldable pub ping : Exec S (Unit {0})
  ping = disk.stat

  unfoldable pub close : Exec S (Unit {0})
  close = pure tt

  unfoldable pub list_policy_audit : String → Exec S (List PolicyAuditEntry)
  unfolding keep_if
  list_policy_audit id = do pl ← disk.read; pure (keep_if (λ a. a.policy_id == id) pl.audits)

  unfoldable pub list_policy_versions : String → Exec S (List PolicyVersion)
  list_policy_versions id = do pl ← disk.read; pure (get_or (pl.versions id) [])
