-- ===== src/Store/Policies/Kept.antt =====
-- policy/file/store.go as a policy store, on a file that keeps what is written.
use rlaas.Base.{String, ◌≡◌, refl, ◌∙◌}
use mathlib.Core.Path.{subst}
use rlaas.Base.Exec.{Result, ok, err, Exec, continue, ◌>>=◌}
use rlaas.Store.{PolicyStore, HistoryStore}
use rlaas.Store.Policies.{
  Payload, Disk, Stamps, load_policies, get_policy_by_id, upsert_policy, delete_policy,
  list_policies, ping, close, list_policy_audit, list_policy_versions, found_policy, find_policy,
}

-- What a read answers is what the file holds, and a read changes nothing.
abbrev pub WasRead : {S : Type 0} → (S → Payload) → Payload → Result Payload × S → Type 0
WasRead stored before (ok pl, s) = (pl ≡ before) × (stored s ≡ before)
WasRead stored before (err why, s) = stored s ≡ before

-- A write that succeeds stores the payload; one that fails changes nothing, since `os.Rename` replaces the
-- whole file.
abbrev pub WasWritten :
    {S : Type 0} → (S → Payload) → Payload → Payload → Result (Unit {0}) × S → Type 0
WasWritten stored new before (ok _, s) = stored s ≡ new
WasWritten stored new before (err why, s) = stored s ≡ before

pub record DiskLaws {S : Type 0} (disk : Disk S) (stored : S → Payload) : Type 0 where
  pub read_law : (s : S) → WasRead stored (stored s) (disk.read s)
  pub write_law : (pl : Payload) (s : S) → WasWritten stored pl (stored s) (disk.write pl s)

module _ {S : Type 0} (disk : Disk S) (t : Stamps) where
  unfoldable pub file_store : PolicyStore S
  file_store = record {
    load_policies = load_policies disk;
    get_policy_by_id = get_policy_by_id disk;
    upsert_policy = upsert_policy disk t;
    delete_policy = delete_policy disk t;
    list_policies = list_policies disk;
    ping = ping disk;
    close = close disk;
  }

  unfoldable pub file_history : HistoryStore S
  file_history = record {
    list_policy_audit = list_policy_audit disk;
    list_policy_versions = list_policy_versions disk;
  }

module _ {S : Type 0} {disk : Disk S} {stored : S → Payload} (laws : DiskLaws disk stored) where
  after_read :
      {A : Type 0} (f : Payload → Exec S A)
      → ((pl : Payload) (s : S) → stored (f pl s).1 ≡ stored s)
      → (before : Payload) (r : Result Payload × S) → WasRead stored before r
      → stored (continue r.0 f r.1).1 ≡ before
  after_read f keeps before (ok pl, s) (same, held) = keeps pl s ∙ held
  after_read f keeps before (err why, s) held = held

  -- Reading the file and computing an answer from it changes nothing.
  pub reads_keep :
      {A : Type 0} (f : Payload → Exec S A)
      → ((pl : Payload) (s : S) → stored (f pl s).1 ≡ stored s)
      → (s : S) → stored ((disk.read >>= f) s).1 ≡ stored s
  reads_keep f keeps s = after_read f keeps (stored s) (disk.read s) (laws.read_law s)

  written :
      (change : Payload → Payload) (before : Payload) (r : Result Payload × S)
      → WasRead stored before r
      → WasWritten stored (change before) before (continue r.0 (λ pl. disk.write (change pl)) r.1)
  written change before (ok pl, s) (same, held) =
      subst (λ b. WasWritten stored (change b) before (disk.write (change pl) s)) same
        (subst (λ b. WasWritten stored (change pl) b (disk.write (change pl) s)) held
          (laws.write_law (change pl) s))
  written change before (err why, s) held = held

  -- Reading the payload and writing it changed stores the change, or fails and changes nothing.
  pub changes_written :
      (change : Payload → Payload) (s : S)
      → WasWritten stored
          (change (stored s))
          (stored s)
          ((disk.read >>= λ pl. disk.write (change pl)) s)
  changes_written change s = written change (stored s) (disk.read s) (laws.read_law s)

  pub get_policy_by_id_keeps :
      (id : String) (s : S) → stored (get_policy_by_id disk id s).1 ≡ stored s
  unfolding get_policy_by_id
  get_policy_by_id_keeps id =
      reads_keep (λ pl s. (found_policy (find_policy id pl.policies), s)) (λ pl s. refl)
