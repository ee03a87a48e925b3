-- ===== src/Store.antt =====
-- internal/store/interfaces.go: the primitives that the algorithms ask of a counter store, and what
-- the control plane asks of a policy store.
pub mod Memory
pub mod Cache
pub mod Laws
pub mod Breaker
pub mod Policies
pub mod World
use rlaas.Base.{String, Bool, List, Option}
use rlaas.Base.Int64.{Int64}
use rlaas.Base.Time.{Time, Duration}
use rlaas.Base.Exec.{Exec}
use rlaas.Model.{Policy, PolicyAuditEntry, PolicyVersion}

-- `atomic_timestamps` is the answer of the type assertion on the optional `CheckAndAddTimestamps`.
pub record CounterStore (S : Type 0) : Type 0 where
  pub increment : String → Int64 → Duration → Exec S Int64
  pub get : String → Exec S Int64
  pub set : String → Int64 → Duration → Exec S (Unit {0})
  pub compare_and_swap : String → Int64 → Int64 → Duration → Exec S Bool
  pub delete : String → Exec S (Unit {0})
  pub add_timestamp : String → Time → Duration → Exec S (Unit {0})
  pub count_after : String → Time → Exec S Int64
  pub trim_before : String → Time → Exec S (Unit {0})
  pub acquire_lease : String → Int64 → Duration → Exec S (Bool × Int64)
  pub release_lease : String → Exec S (Unit {0})
  pub ping : Exec S (Unit {0})
  pub close : Exec S (Unit {0})
  pub atomic_timestamps :
      Option (String → Time → Int64 → Int64 → Time → Duration → Exec S (Int64 × Bool))

-- `ListPolicies` ignores its filter in every store that is modelled, and gets none here.
pub record PolicyStore (S : Type 0) : Type 0 where
  pub load_policies : String → Exec S (List Policy)
  pub get_policy_by_id : String → Exec S Policy
  pub upsert_policy : Policy → Exec S (Unit {0})
  pub delete_policy : String → Exec S (Unit {0})
  pub list_policies : Exec S (List Policy)
  pub ping : Exec S (Unit {0})
  pub close : Exec S (Unit {0})

-- `policyHistoryStore` of internal/adapter/http/controlplane.go, which a policy store may implement.
pub record HistoryStore (S : Type 0) : Type 0 where
  pub list_policy_audit : String → Exec S (List PolicyAuditEntry)
  pub list_policy_versions : String → Exec S (List PolicyVersion)
