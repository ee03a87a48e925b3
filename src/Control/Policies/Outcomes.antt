-- ===== src/Control/Policies/Outcomes.antt =====
-- How a rollback of internal/adapter/http/controlplane.go may end, by what happens to the store's file.
use rlaas.Base.{String, Option, none, some, ◌≡◌, ◌∙◌, ap, ◌⊎◌, inl, inr}
use rlaas.Base.Exec.{Result, ok, err, continue}
use rlaas.Model.{Policy}
use rlaas.Store.Policies.{Payload, Disk, Stamps, upserted}
use rlaas.Store.Policies.Lookup.{upsert, change}
use rlaas.Control.{Reply, message, one_policy}

abbrev pub Fails : {A : Type 0} → Result A → Type 0
Fails r = (why : String) × (r ≡ err why)

module _ {S : Type 0} (disk : Disk S) (stored : S → Payload) (t : Stamps) where
  -- Storing a policy fails: the file cannot be read, or what was read cannot be written with the change.
  abbrev pub UpsertFails : Policy → S → Type 0
  UpsertFails p s =
      Fails (disk.read s).0
      ⊎ ((pl : Payload) × ((disk.read s).0 ≡ ok pl)
          × Fails (disk.write (change (upsert t p) pl) (disk.read s).1).0)

  -- Storing what is to be restored fails.
  abbrev pub StoreFails : Option Policy → S → Type 0
  StoreFails none s = ⊥
  StoreFails (some p) s = UpsertFails p s

  -- The answer if the store does not fail: the policy to restore is stored once more and is the answer.
  abbrev pub Restored : Option Policy → Payload → Reply × S → Type 0
  Restored none before (r, s) =
      (r.response ≡ record { status = 404; body = message "policy version not found" })
      × (stored s ≡ before)
  Restored (some p) before (r, s) =
      (r.response ≡ record { status = 200; body = one_policy p })
      × (stored s ≡ change (upsert t p) before)

  -- The other answer, for the reason that is given, or this one.
  abbrev pub Ended : Type 0 → Option Policy → Payload → Reply × S → Type 0
  Ended Failed choice before (r, s) =
      ((r.response ≡ record { status = 500; body = message "policy store error" })
        × (stored s ≡ before)
        × Failed)
      ⊎ Restored choice before (r, s)

  -- The rollback begins in a state: the file cannot be read in it, or storing fails in the state after that.
  abbrev pub RolledBack : Option Policy → Payload → S → Reply × S → Type 0
  RolledBack choice before start =
      Ended (Fails (disk.read start).0 ⊎ StoreFails choice (disk.read start).1) choice before

  pub Ended-for :
      {F G : Type 0} (choice : Option Policy) (before : Payload) (x : Reply × S)
      → (F → G)
      → Ended F choice before x
      → Ended G choice before x
  Ended-for choice before x f (inl (says, held, failed)) = inl (says, held, f failed)
  Ended-for choice before x f (inr done) = inr done

  pub upsert-failed :
      (p : Policy) (x : Result Payload × S) (s : S) (why : String)
      → disk.read s ≡ x
      → (continue x.0 (λ pl. disk.write (upserted t p pl)) x.1).0 ≡ err why
      → UpsertFails p s
  unfolding change
  upsert-failed p (err other, s') s why e h = inl (other, ap {A = Result Payload × S} (λ y. y.0) e)
  upsert-failed p (ok pl, s') s why e h = inr (
    pl,
    ap {A = Result Payload × S} (λ y. y.0) e,
    (why, ap (λ (y : Result Payload × S). (disk.write (upserted t p pl) y.1).0) e ∙ h),
  )
