-- ===== src/Store/Memory/Leases.antt =====
-- The leases of memory/store.go: how many holders a key has.
pub mod Return
use rlaas.Base.{String, Bool, true, false, if◌then◌else◌}
use rlaas.Base.Int.{pos, leb_ℤ, ltb_ℤ}
use rlaas.Base.Int64.{Int64, ◌+w◌, ◌-w◌}
use rlaas.Base.Time.{Time, Duration}
use rlaas.Base.Maps.{put, remove, get_or}
use rlaas.Base.Exec.{Result, ok, err}
use rlaas.Store.Memory.{ValueItem, Shard, zero_item, expired, extend}

unfoldable pub get_lease_locked : Time → String → Shard → ValueItem × Shard
get_lease_locked check key shard =
    let it = get_or (shard.leases key) zero_item in
    if expired check it
    then (zero_item, record shard { leases = remove shard.leases key })
    else (it, shard)

-- One more holder, if the limit allows it; the answer has the holders' number.
unfoldable pub acquire_locked :
    Time → Time → String → Int64 → Duration → Shard → Result (Bool × Int64) × Shard
acquire_locked check stamp key limit ttl shard =
    let (it, shard') = get_lease_locked check key shard in
    let it' = extend stamp ttl (record it { value = it.value +w pos 1 }) in
    if leb_ℤ limit (pos 0)
    then (err "limit must be positive", shard)
    else if leb_ℤ limit it.value
    then (ok (false, it.value), shard')
    else (ok (true, it'.value), record shard' { leases = put shard'.leases key it' })

unfoldable pub release_locked : Time → String → Shard → Unit {0} × Shard
release_locked check key shard =
    let (it, shard') = get_lease_locked check key shard in
    let it' = if ltb_ℤ (pos 0) it.value then record it { value = it.value -w pos 1 } else it in
    (tt, record shard' { leases = put shard'.leases key it' })
