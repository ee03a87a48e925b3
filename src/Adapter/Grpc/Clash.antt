-- ===== src/Adapter/Grpc/Clash.antt =====
-- Leases of internal/adapter/grpc/service.go that are put at the same reading of the clock.
use mathlib.Core.Path.{fun_ext}
use rlaas.Base.{String, true, false, none, some, ◌≡◌, refl, eq_iff, ◌==◌, Bool-cases, inl, inr}
use rlaas.Base.Maps.{put, remove}
use rlaas.Base.Exec.{ok}
use rlaas.Base.Time.{Time}
use rlaas.Model.{Decision}
use rlaas.Control.Leases.{LeaseEvaluator}
use rlaas.Adapter.Grpc.{
  AcquireRequest, GrpcLeaseRegistry, grpc_lease_id, acquire, acquire_context, grpc_hand_out,
  put_grpc_lease, pop_grpc_lease, release, run_popped,
}

module _ {S R : Type 0} (e : LeaseEvaluator S R) where
  acquired :
      (now : Time) (i : AcquireRequest) (m : GrpcLeaseRegistry R) (s s' : S) (d : Decision) (f : R)
      → e.start_concurrency_lease (acquire_context i) s ≡ (ok (d, some f), s')
      → d.allowed ≡ true
      → acquire e now i (m, s) ≡ (
        ok (record { allowed = true; lease_id = grpc_lease_id now; reason = d.reason }),
        (put m (grpc_lease_id now) f, s'),
      )
  unfolding acquire grpc_hand_out put_grpc_lease
  acquired now i m s s' d f got granted = rw got (rw granted refl)

  release_held :
      (id : String) (m : GrpcLeaseRegistry R) (s : S) (f : R)
      → m id ≡ some f
      → (release e id (m, s)).1 ≡ (remove m id, (e.run f s).1)
  unfolding release pop_grpc_lease run_popped
  release_held id m s f held = rw held refl

  release_gone :
      (id : String) (m : GrpcLeaseRegistry R) (s : S)
      → m id ≡ none
      → release e id (m, s) ≡ (false, (m, s))
  unfolding release pop_grpc_lease run_popped
  release_gone id m s gone = rw gone refl

put_twice :
    {R : Type 0} (m : GrpcLeaseRegistry R) (id : String) (f g : R)
    → put (put m id f) id g ≡ put m id g
put_twice m id f g =
    fun_ext (λ k. elim (Bool-cases (id == k)) [ inl hit ↦ rw hit refl | inr miss ↦ rw miss refl ])

-- When two calls get leases at the same reading of the clock, both callers get the same id, and the registry is then
-- the one in which only the second function was ever put: whatever calls follow, the first one is out of reach.
-- Releasing the id runs the second function, and a second release finds nothing.
pub same_reading_loses_lease :
    {S R : Type 0} (e : LeaseEvaluator S R) (now : Time) (i j : AcquireRequest)
    → (m : GrpcLeaseRegistry R) (s s' s'' : S) (c d : Decision) (f g : R)
    → e.start_concurrency_lease (acquire_context i) s ≡ (ok (c, some f), s')
    → e.start_concurrency_lease (acquire_context j) s' ≡ (ok (d, some g), s'')
    → c.allowed ≡ true
    → d.allowed ≡ true
    → let id = grpc_lease_id now in
      let first = acquire e now i (m, s) in
      let second = acquire e now j first.1 in
      let y = release e id second.1 in
      (first.0 ≡ ok (record { allowed = true; lease_id = id; reason = c.reason }))
      × (second.0 ≡ ok (record { allowed = true; lease_id = id; reason = d.reason }))
      × (second.1 ≡ (put m id g, s''))
      × (y.1 ≡ (remove (put m id g) id, (e.run g s'').1))
      × (release e id y.1 ≡ (false, y.1))
same_reading_loses_lease e now i j m s s' s'' c d f g one two yes_c yes_d =
    let id = grpc_lease_id now in
    let own = (eq_iff id id).1 refl in
    let a = acquired e now i m s s' c f one yes_c in
    let b = acquired e now j (put m id f) s' s'' d g two yes_d in
    let r = release_held e id (put m id g) s'' g (rw own refl) in
    let z = release_gone e id (remove (put m id g) id) (e.run g s'').1 (rw own refl) in
    rw a (rw b (rw (put_twice m id f g) (rw r (refl, refl, refl, refl, z))))
