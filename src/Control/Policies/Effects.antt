-- ===== src/Control/Policies/Effects.antt =====
-- What the policies' handlers of internal/adapter/http/controlplane.go change and announce, over the store of
-- internal/store/policy/file/store.go.
use mathlib.Core.Path.{subst}
use rlaas.Base.Tests.{if◌then◌else◌}
use rlaas.Base.{
  String, List, [], ◌∷◌, ◌++◌, Bool, true, false, Option, none, some, ◌≡◌, refl, ap, arith, ◌⊎◌,
  inl, inr,
}
use rlaas.Base.Exec.{Result, ok, err, Exec}
use rlaas.Model.{StringMap}
use rlaas.Store.Policies.{Payload}
use rlaas.Store.Policies.Kept.{WasWritten}
use rlaas.Store.Policies.Lookup.{Change, upsert, delete, change}
use rlaas.Control.{
  Event, publish, recorded, Reply, Flow, stop, go, Serve, ◌>>=◌, ◌>>◌, proceed, flow_of, need,
  need_value, need_some, demand, answer, served, flow_some,
}
use rlaas.Control.Policies.{PoliciesHandlerConfig, notify, record_event}

-- The calls of the hook for invalidation, in their order.
unfoldable pub publications : List Event → List Event
publications [] = []
publications (publish topic event ∷ es) = publish topic event ∷ publications es
publications (recorded name tags ∷ es) = publications es

abbrev pub id_of : Change → String
id_of (upsert t p) = p.policy_id
id_of (delete t id) = id

-- The event that tells of a change of a policy, if there is a hook for it.
abbrev pub announcement : PoliciesHandlerConfig → String → String → List Event
announcement cfg id action =
    if cfg.notifier
    then publish "policy.changed" (("policy_id", id) ∷ ("action", action) ∷ []) ∷ []
    else []

-- Nothing changed and nothing is announced, or one policy changed and that is announced.
abbrev pub Announced : PoliciesHandlerConfig → Reply → Payload → Payload → Type 0
Announced cfg r before after =
    ((after ≡ before) × (publications r.events ≡ []))
    ⊎ ((c : Change) × (action : String) × (after ≡ change c before)
        × (publications r.events ≡ announcement cfg (id_of c) action))

pub notified :
    (cfg : PoliciesHandlerConfig) (id action name : String) (tags : StringMap)
    → publications (notify cfg id action ++ record_event cfg name tags) ≡ announcement cfg id action
unfolding publications notify record_event
notified cfg id action name tags = ground arith

-- A step that changes nothing, and that announces nothing when it ends the handler.
abbrev SilentFlow : {A : Type 0} → Flow A → Type 0
SilentFlow (stop r) = publications r.events ≡ []
SilentFlow (go a) = Unit

module _ {S : Type 0} (stored : S → Payload) (cfg : PoliciesHandlerConfig) where
  pub record Silent {A : Type 0} (m : Serve S A) : Type 0 where
    pub keeps : (s : S) → stored (m s).1 ≡ stored s
    pub says : (s : S) → SilentFlow (m s).0

  unfoldable pub Told : Serve S Reply → Type 0
  Told m = (s : S) → Announced cfg (served m s).0 (stored s) (stored (served m s).1)

  proceed-Told :
      {A : Type 0} (f : A → Serve S Reply) (before : Payload) (x : Flow A) (s : S)
      → ((a : A) → Told (f a))
      → stored s ≡ before
      → SilentFlow x
      → Announced cfg (served (λ _. proceed x f s) s).0 before (stored (proceed x f s).1)
  unfolding Told
  proceed-Told f before (stop r) s told same quiet = inl (same, quiet)
  proceed-Told f before (go a) s told same quiet =
      subst (λ b. Announced cfg (served (f a) s).0 b (stored (f a s).1)) same (told a s)

  pub bind-Told :
      {A : Type 0} {m : Serve S A} (f : A → Serve S Reply)
      → Silent m
      → ((a : A) → Told (f a))
      → Told (m >>= f)
  unfolding Told
  bind-Told {m} f quiet told s =
      proceed-Told f (stored s) (m s).0 (m s).1 told (quiet.keeps s) (quiet.says s)

  flow_of-SilentFlow :
      {A : Type 0} (r : Reply) (a : Result A)
      → publications r.events ≡ []
      → SilentFlow (flow_of r a)
  flow_of-SilentFlow r (ok a) quiet = tt
  flow_of-SilentFlow r (err why) quiet = quiet

  flow_some-SilentFlow :
      {A : Type 0} (r : Reply) (a : Option A)
      → publications r.events ≡ []
      → SilentFlow (flow_some r a)
  flow_some-SilentFlow r (some a) quiet = tt
  flow_some-SilentFlow r none quiet = quiet

  demand-SilentFlow :
      (r : Reply) (b : Bool) (s : S) → publications r.events ≡ [] → SilentFlow (demand r b s).0
  demand-SilentFlow r true s quiet = tt
  demand-SilentFlow r false s quiet = quiet

  demand-keeps : (r : Reply) (b : Bool) (s : S) → (demand r b s).1 ≡ s
  demand-keeps r true s = refl
  demand-keeps r false s = refl

  pub need-Silent :
      {A : Type 0} (r : Reply) (m : Exec S A)
      → publications r.events ≡ []
      → ((s : S) → stored (m s).1 ≡ stored s)
      → Silent (need r m)
  need-Silent r m quiet kept = record {
    keeps = kept;
    says = λ s. flow_of-SilentFlow r (m s).0 quiet;
  }

  pub need_value-Silent :
      {A : Type 0} (r : Reply) (a : Result A) → publications r.events ≡ [] → Silent (need_value r a)
  need_value-Silent r a quiet = record {
    keeps = λ s. refl;
    says = λ s. flow_of-SilentFlow r a quiet;
  }

  pub need_some-Silent :
      {A : Type 0} (r : Reply) (a : Option A) → publications r.events ≡ [] → Silent (need_some r a)
  need_some-Silent r a quiet = record {
    keeps = λ s. refl;
    says = λ s. flow_some-SilentFlow r a quiet;
  }

  pub demand-Silent : (r : Reply) (b : Bool) → publications r.events ≡ [] → Silent (demand r b)
  demand-Silent r b quiet = record {
    keeps = λ s. ap stored (demand-keeps r b s);
    says = λ s. demand-SilentFlow r b s quiet;
  }

  pub answer-Told : (r : Reply) → publications r.events ≡ [] → Told (answer r)
  unfolding Told
  answer-Told r quiet s = inl (refl, quiet)

  write-Announced :
      (bad good : Reply) (c : Change) (action : String) (before : Payload)
      (x : Result (Unit {0}) × S)
      → publications bad.events ≡ []
      → publications good.events ≡ announcement cfg (id_of c) action
      → WasWritten stored (change c before) before x
      → Announced cfg
          (served (λ _. proceed (flow_of bad x.0) (λ _. answer good) x.1) x.1).0
          before
          (stored (proceed (flow_of bad x.0) (λ _. answer good) x.1).1)
  write-Announced bad good c action before (ok _, s) quiet says held = inr (c, action, held, says)
  write-Announced bad good c action before (err why, s) quiet says held = inl (held, quiet)

  -- A handler that ends with a write.
  pub write-Told :
      (bad good : Reply) (m : Exec S (Unit {0})) (c : Change) (action : String)
      → publications bad.events ≡ []
      → publications good.events ≡ announcement cfg (id_of c) action
      → ((s : S) → WasWritten stored (change c (stored s)) (stored s) (m s))
      → Told (need bad m >> answer good)
  unfolding Told
  write-Told bad good m c action quiet says held s =
      write-Announced bad good c action (stored s) (m s) quiet says (held s)
