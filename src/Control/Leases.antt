-- ===== src/Control/Leases.antt =====
-- The handlers of internal/adapter/http/controlplane.go that acquire and release leases. The state is the
-- registry, which both share, and that of the engine; a call of the registry under its lock is one step.
pub mod Once
use Prim.Native.Nat.{ℕ}
use rlaas.Base.{
  String, List, [], ◌∷◌, Bool, true, false, Option, none, some, ◌==◌, ◌<>◌, ◌&&◌, if◌then◌else◌,
}
use rlaas.Base.Maps.{Map, empty, put, remove}
use rlaas.Base.Exec.{Result, ok, err, Exec}
use rlaas.Model.{RequestContext, Decision}
use rlaas.Control.{
  AcquireResponse, ReleaseResponse, Body, message, acquire_response, release_response, Response,
}

-- `R` has the functions that release a lease, which may be nil; `run` is a call of one.
pub record LeaseEvaluator (S R : Type 0) : Type 0 where
  pub evaluate : RequestContext → Exec S Decision
  pub start_concurrency_lease : RequestContext → Exec S (Decision × Option R)
  pub run : R → Exec S (Unit {0})

abbrev pub LeaseRegistry : Type 0 → Type 0
LeaseRegistry R = Map R

-- `random` is the text of the 16 random bytes.
unfoldable pub lease_id_of : String → String
lease_id_of random = "lease-" <> random

unfoldable pub put_lease : {R : Type 0} → String → R → LeaseRegistry R → String × LeaseRegistry R
unfolding lease_id_of
put_lease random fn m = (lease_id_of random, put m (lease_id_of random) fn)

unfoldable pub pop : {R : Type 0} → String → LeaseRegistry R → Option R × LeaseRegistry R
pop id m = (m id, elim (m id) [ none ↦ m | some fn ↦ remove m id ])

unfoldable pub refuse : ℕ → String → Response
refuse status text = record { status = status; body = message text }

answered : Decision → String → Response
answered d id = record {
  status = 200;
  body =
      acquire_response
        (record { allowed = d.allowed; lease_id = id; reason = d.reason; action = d.action });
}

module _ {S R : Type 0} (e : LeaseEvaluator S R) where
  -- What comes of the engine's answer.
  unfoldable pub hand_out :
      String → Result (Decision × Option R) → LeaseRegistry R → Response × LeaseRegistry R
  unfolding refuse answered put_lease
  hand_out random (err why) m = (refuse 500 "rate limiter error", m)
  hand_out random (ok (d, none)) m = (answered d "", m)
  hand_out random (ok (d, some fn)) m =
      let (id, m') = put_lease random fn m in
      if d.allowed then (answered d id, m') else (answered d "", m)

  unfoldable pub acquire_handler :
      Result RequestContext → String → LeaseRegistry R × S → Response × (LeaseRegistry R × S)
  unfolding hand_out refuse
  acquire_handler (err why) random (m, s) = (refuse 400 "invalid request", (m, s))
  acquire_handler (ok req) random (m, s) =
      let (r, s') = e.start_concurrency_lease req s in
      let (response, m') = hand_out random r m in (response, (m', s'))

  unfoldable pub released : Result (Unit {0}) → Response
  unfolding refuse
  released (ok _) = record {
    status = 200;
    body = release_response (record { released = true; reason = "" });
  }
  released (err why) = refuse 500 "release failed"

  unfoldable pub give_back : Option R → S → Response × S
  unfolding refuse released
  give_back none s = (refuse 404 "lease not found", s)
  give_back (some fn) s = (released (e.run fn s).0, (e.run fn s).1)

  unfoldable pub release_handler :
      Result String → LeaseRegistry R × S → Response × (LeaseRegistry R × S)
  unfolding pop give_back refuse
  release_handler (err why) (m, s) = (refuse 400 "invalid request", (m, s))
  release_handler (ok id) (m, s) =
      let (fn, m') = pop id m in
      let (response, s') = give_back fn s in
      if id == "" then (refuse 400 "invalid request", (m, s)) else (response, (m', s'))
