-- ===== src/Store/Memory/Timestamps.antt =====
-- The timestamp logs of memory/store.go.
pub mod Counts
pub mod Rolling
use Prim.Native.Nat.{ℕ}
use rlaas.Base.{
  String, List, [], ◌∷◌, ◌++◌, Bool, true, false, none, some, ◌||◌, not, if◌then◌else◌,
}
use rlaas.Base.Lists.{length, keep_if, replicate}
use rlaas.Base.Int.{pos, pos_part, ltb_ℤ}
use rlaas.Base.Int64.{Int64, ◌+w◌}
use rlaas.Base.Time.{Time, Duration, is_zero, before, add}
use rlaas.Base.Maps.{put, remove, get_or}
use rlaas.Store.Memory.{Shard}

-- `sort.Slice` by time: equal times are one value, so every sort gives this list.
unfoldable pub insert_time : Time → List Time → List Time
unfolding before
insert_time t [] = t ∷ []
insert_time t (u ∷ us) = let rest = u ∷ insert_time t us in if before u t then rest else t ∷ u ∷ us

unfoldable pub sort_times : List Time → List Time
unfolding insert_time
sort_times [] = []
sort_times (t ∷ ts) = insert_time t (sort_times ts)

-- The entries that are not before a time.
unfoldable pub not_before : Time → List Time → List Time
unfolding keep_if before
not_before cutoff = keep_if (λ t. not (before t cutoff))

-- `shard.timestamps[key]`.
abbrev pub log_of : Shard → String → List Time
log_of shard key = get_or (shard.timestamps key) []

-- `shard.tsExpiry[key] = time.Now().Add(ttl)` if `ttl > 0`.
unfoldable pub extend_log : Time → Duration → String → Shard → Shard
unfolding add
extend_log stamp ttl key shard =
    if ltb_ℤ (pos 0) ttl
    then record shard { ts_expiry = put shard.ts_expiry key (add stamp ttl) }
    else shard

unfoldable pub add_timestamp_locked : Time → String → Time → Duration → Shard → Unit {0} × Shard
add_timestamp_locked stamp key ts ttl shard =
    let arr = sort_times (log_of shard key ++ ts ∷ []) in
    (tt, extend_log stamp ttl key (record shard { timestamps = put shard.timestamps key arr }))

-- `cleanTSLocked`: the log goes when its expiry has come.
unfoldable pub clean_ts_locked : Time → String → Shard → Shard
unfolding is_zero before
clean_ts_locked check key shard =
    let expiry = get_or (shard.ts_expiry key) (pos 0) in
    if is_zero expiry || before check expiry then shard else record shard {
      timestamps = remove shard.timestamps key;
      ts_expiry = remove shard.ts_expiry key;
    }

unfoldable pub count_after_locked : Time → String → Time → Shard → Int64 × Shard
count_after_locked check key after shard =
    let shard' = clean_ts_locked check key shard in
    (pos (length (not_before after (log_of shard' key))), shard')

unfoldable pub trim_before_locked : String → Time → Shard → Unit {0} × Shard
trim_before_locked key before shard = (
  tt,
  record shard { timestamps = put shard.timestamps key (not_before before (log_of shard key)) },
)

-- `CheckAndAddTimestamps`: trim, count, check the limit and add, in one call.
unfoldable pub check_and_add_locked :
    Time → String → Time → Int64 → Int64 → Time → Duration → Shard → (Int64 × Bool) × Shard
check_and_add_locked stamp key cutoff limit cost ts ttl shard =
    let arr = not_before cutoff (log_of shard key) in
    let count = pos (length arr) in
    let arr' = sort_times (arr ++ replicate (pos_part cost) ts) in
    if ltb_ℤ limit (count +w cost)
    then ((count, false), record shard { timestamps = put shard.timestamps key arr })
    else (
      (count, true),
      extend_log stamp ttl key (record shard { timestamps = put shard.timestamps key arr' }),
    )
