-- ===== src/Control.antt =====
-- internal/adapter/http/controlplane.go: what its handlers answer. Headers are not modelled, and `encoding/json`
-- is a parameter: a handler gets the decoder's answer, and a reply holds the value that is encoded.
pub mod Leases
pub mod Routes
pub mod Rules
pub mod Policies
use Prim.Native.Nat.{ℕ}
use rlaas.Base.{String, List, [], Bool, true, false, Option, none, some, if◌then◌else◌}
use rlaas.Base.Exec.{Result, ok, err, Exec}
use rlaas.Model.{StringMap, ActionType, Policy, PolicyAuditEntry, PolicyVersion}

pub record AcquireResponse : Type 0 where
  pub allowed : Bool
  pub lease_id : String
  pub reason : String
  pub action : ActionType

pub record ReleaseResponse : Type 0 where
  pub released : Bool
  pub reason : String

-- `message` is the text of `http.Error`.
pub data Body : Type 0 where
  message : String → Body
  no_content valid : Body
  one_policy : Policy → Body
  policies : List Policy → Body
  audit_trail : List PolicyAuditEntry → Body
  version_list : List PolicyVersion → Body
  acquire_response : AcquireResponse → Body
  release_response : ReleaseResponse → Body

pub record Response : Type 0 where
  pub status : ℕ
  pub body : Body

-- A call of a hook.
pub data Event : Type 0 where
  publish : String → StringMap → Event
  recorded : String → StringMap → Event

-- The response, and the calls of hooks, in their order. What a hook answers is ignored.
pub record Reply : Type 0 where
  pub response : Response
  pub events : List Event

unfoldable pub fail : ℕ → String → Reply
fail status text = record {
  response = record { status = status; body = message text };
  events = [];
}

-- The rest of a handler, or its early return.
pub data Flow (A : Type 0) : Type 0 where
  stop : Reply → Flow A
  go : A → Flow A

abbrev pub Serve : Type 0 → Type 0 → Type 0
Serve S A = S → Flow A × S

abbrev pub flow_of : {A : Type 0} → Reply → Result A → Flow A
flow_of r (ok a) = go a
flow_of r (err e) = stop r

abbrev pub flow_some : {A : Type 0} → Reply → Option A → Flow A
flow_some r none = stop r
flow_some r (some a) = go a

abbrev pub reply_of : Flow Reply → Reply
reply_of (stop r) = r
reply_of (go r) = r

module _ {S : Type 0} where
  abbrev pub proceed : {A B : Type 0} → Flow A → (A → Serve S B) → Serve S B
  proceed (stop r) f s = (stop r, s)
  proceed (go a) f s = f a s

  infixl 10 ◌>>=◌ ◌>>◌
  abbrev pub ◌>>=◌ : {A B : Type 0} → Serve S A → (A → Serve S B) → Serve S B
  ◌>>=◌ m f s = proceed (m s).0 f (m s).1

  abbrev pub ◌>>◌ : {A B : Type 0} → Serve S A → Serve S B → Serve S B
  m >> n = m >>= λ _. n

  -- A call whose error ends the handler.
  abbrev pub need : {A : Type 0} → Reply → Exec S A → Serve S A
  need r m s = (flow_of r (m s).0, (m s).1)

  -- A decoder's or a lookup's answer.
  abbrev pub need_value : {A : Type 0} → Reply → Result A → Serve S A
  need_value r a s = (flow_of r a, s)

  abbrev pub need_some : {A : Type 0} → Reply → Option A → Serve S A
  need_some r o s = (flow_some r o, s)

  abbrev pub demand : Reply → Bool → Serve S (Unit {0})
  demand r true s = (go tt, s)
  demand r false s = (stop r, s)

  abbrev pub answer : Reply → Serve S Reply
  answer r s = (go r, s)

  abbrev pub served : Serve S Reply → S → Reply × S
  served m s = (reply_of (m s).0, (m s).1)
