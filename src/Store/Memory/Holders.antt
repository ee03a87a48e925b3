-- ===== src/Store/Memory/Holders.antt =====
-- The leases of memory/store.go over any sequence of calls.
use rlaas.Base.{
  String, List, [], ◌∷◌, false, ◌≡◌, inl, inr, arith, eq_iff, if◌then◌else◌, Bool-cases,
}
use rlaas.Base.Int.{pos, ◌≤ℤ◌, ◌<ℤ◌, ◌+ℤ◌, ◌-ℤ◌, ltb_ℤ, leb_ℤ}
use rlaas.Base.Int64.{Int64, InRange, ◌+w◌, ◌-w◌, wrap64}
use rlaas.Base.Time.{Time, Duration}
use rlaas.Base.Maps.{get_or, put}
use rlaas.Store.Memory.{ValueItem, Shard, zero_item, expired, extend}
use rlaas.Store.Memory.Leases.{get_lease_locked, acquire_locked, release_locked}

-- What is stored for a key, and the holders that count at a time.
abbrev pub lease_of : Shard → String → ValueItem
lease_of shard key = get_or (shard.leases key) zero_item

unfoldable pub holders : Time → Shard → String → Int64
holders now shard key = (get_lease_locked now key shard).0.value

-- One call on the leases of a key, with its clock readings; the limit and the time to live are those of
-- the policy.
pub data LeaseCall : Type 0 where
  acquire : Time → Time → LeaseCall
  release : Time → LeaseCall

module _ (key : String) (limit : Int64) (ttl : Duration) where
  unfoldable pub run_call : LeaseCall → Shard → Shard
  run_call (acquire check stamp) shard = (acquire_locked check stamp key limit ttl shard).1
  run_call (release check) shard = (release_locked check key shard).1

  unfoldable pub run_calls : List LeaseCall → Shard → Shard
  unfolding run_call
  run_calls [] shard = shard
  run_calls (c ∷ cs) shard = run_calls cs (run_call c shard)

-- The stored number of holders lies between 0 and the limit.
pub record Capped (key : String) (limit : Int64) (shard : Shard) : Type 0 where
  pub nonneg : pos 0 ≤ℤ (lease_of shard key).value
  pub capped : (lease_of shard key).value ≤ℤ limit

pub extend-value :
    (stamp : Time) (ttl : Duration) (it : ValueItem) → (extend stamp ttl it).value ≡ it.value
unfolding extend
extend-value stamp ttl it = ground arith

-- The item that a call finds is capped, and so is what the look-up leaves.
got-Capped :
    (check : Time) (key : String) (limit : Int64) (shard : Shard)
    → pos 0 <ℤ limit
    → Capped key limit shard
    → let (it, shard') = get_lease_locked check key shard in
      (pos 0 ≤ℤ it.value) × (it.value ≤ℤ limit) × Capped key limit shard'
unfolding get_lease_locked
got-Capped check key limit shard positive h =
    elim (Bool-cases (expired check (lease_of shard key))) [
      | inl past ↦ rw past (
        omega arith,
        omega arith,
        record { nonneg = ground (arith, eq_iff key key); capped = ground (arith, eq_iff key key) },
      )
      | inr live ↦ rw live (h.nonneg, h.capped, h)
    ]

put-Capped :
    (key : String) (limit : Int64) (shard : Shard) (it : ValueItem)
    → pos 0 ≤ℤ it.value
    → it.value ≤ℤ limit
    → Capped key limit (record shard { leases = put shard.leases key it })
put-Capped key limit shard it low high = record {
  nonneg = ground (arith, eq_iff key key);
  capped = ground (arith, eq_iff key key);
}

-- One more below the limit, and one less above 0.
one_more :
    (v limit : Int64)
    → InRange limit
    → pos 0 ≤ℤ v
    → leb_ℤ limit v ≡ false
    → (pos 0 ≤ℤ v +w pos 1) × (v +w pos 1 ≤ℤ limit)
unfolding ◌+w◌ wrap64 ◌+ℤ◌
one_more (pos n) (pos m) ranged low room = ground arith
one_more _ _ ranged low room = absurd (ground arith)

one_less :
    (v limit : Int64)
    → InRange limit
    → v ≤ℤ limit
    → pos 0 ≤ℤ v
    → (pos 0 ≤ℤ (if ltb_ℤ (pos 0) v then v -w pos 1 else v))
      × ((if ltb_ℤ (pos 0) v then v -w pos 1 else v) ≤ℤ limit)
unfolding ◌-w◌ wrap64 ◌-ℤ◌
one_less (pos n) (pos m) ranged high low = ground arith
one_less _ _ ranged high low = absurd (omega arith)

module _ (key : String) (limit : Int64) (ttl : Duration) (positive : pos 0 <ℤ limit)
    (ranged : InRange limit) where
  acquire-Capped :
      (check stamp : Time) (shard : Shard)
      → Capped key limit shard
      → Capped key limit (acquire_locked check stamp key limit ttl shard).1
  unfolding acquire_locked
  acquire-Capped check stamp shard h = elim (Bool-cases (leb_ℤ limit it.value)) [
    | inl full ↦ rw (usable, full, acquire_locked) got.2
    | inr room ↦
        let more = one_more it.value limit ranged got.0 room in
        rw (usable, room, acquire_locked)
          (put-Capped key limit shard' (extend stamp ttl (record it { value = it.value +w pos 1 }))
            (rw extend-value more.0) (rw extend-value more.1))
  ]
    where
      it : ValueItem
      it = (get_lease_locked check key shard).0

      shard' : Shard
      shard' = (get_lease_locked check key shard).1

      got : (pos 0 ≤ℤ it.value) × (it.value ≤ℤ limit) × Capped key limit shard'
      got = got-Capped check key limit shard positive h

      usable : leb_ℤ limit (pos 0) ≡ false
      usable = ground arith

  release-Capped :
      (check : Time) (shard : Shard)
      → Capped key limit shard
      → Capped key limit (release_locked check key shard).1
  unfolding release_locked
  release-Capped check shard h =
      put-Capped key limit shard'
        (if ltb_ℤ (pos 0) it.value then record it { value = it.value -w pos 1 } else it)
        (ground (arith, less)) (ground (arith, less))
    where
      it : ValueItem
      it = (get_lease_locked check key shard).0

      shard' : Shard
      shard' = (get_lease_locked check key shard).1

      got : (pos 0 ≤ℤ it.value) × (it.value ≤ℤ limit) × Capped key limit shard'
      got = got-Capped check key limit shard positive h

      less :
          (pos 0 ≤ℤ (if ltb_ℤ (pos 0) it.value then it.value -w pos 1 else it.value))
          × ((if ltb_ℤ (pos 0) it.value then it.value -w pos 1 else it.value) ≤ℤ limit)
      less = one_less it.value limit ranged got.1 got.0

  -- Whatever calls come, at whatever times, the stored number of holders stays between 0 and the limit.
  pub run_calls-Capped :
      (cs : List LeaseCall) (shard : Shard)
      → Capped key limit shard
      → Capped key limit (run_calls key limit ttl cs shard)
  unfolding run_calls
  run_calls-Capped [] shard h = h
  run_calls-Capped (acquire check stamp ∷ cs) shard h =
      run_calls-Capped cs (acquire_locked check stamp key limit ttl shard).1
        (acquire-Capped check stamp shard h)
  run_calls-Capped (release check ∷ cs) shard h =
      run_calls-Capped cs (release_locked check key shard).1 (release-Capped check shard h)
