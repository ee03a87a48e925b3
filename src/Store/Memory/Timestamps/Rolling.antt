-- ===== src/Store/Memory/Timestamps/Rolling.antt =====
-- The rolling limit of the sliding log: `CheckAndAddTimestamps` over a history of calls, each of which
-- slidinglog.go makes with its time less the window as the cutoff.
use Prim.Native.Nat.{◌+◌}
use rlaas.Base.{
  String, List, [], ◌∷◌, ◌++◌, Bool, false, none, ◌≡◌, ◌∙◌, arith, if◌then◌else◌, Bool-cases, inl,
  inr, eq_iff,
}
use rlaas.Base.Lists.{length, replicate, length-replicate}
use rlaas.Base.Int.{pos, pos_part, ◌+ℤ◌, ◌≤ℤ◌, ltb_ℤ, +ℤ_parts, neg_part-nonneg}
use rlaas.Base.Int64.{Int64, InRange, ◌+w◌, ◌-w◌, +w_exact_below}
use rlaas.Base.Time.{Time, Duration, add}
use rlaas.Store.Memory.{Shard}
use rlaas.Store.Memory.Timestamps.{log_of, not_before, sort_times, extend_log, check_and_add_locked}
use rlaas.Store.Memory.Timestamps.Counts.{
  count_from, count_from-le-length, count_from-append, count_from-sort, count_from-not_before,
  count_from-anti,
}

-- A call for a request of some cost at a time, and the reading of the clock that sets the log's expiry.
pub record LogCall : Type 0 where
  pub now : Time
  pub stamp : Time
  pub cost : Int64

-- A shard, and the time of each unit of cost that was let through so far.
pub record Past : Type 0 where
  pub shard : Shard
  pub admitted : List Time

module _ (key : String) (limit : Int64) (window : Duration) where
  unfoldable pub cutoff : Time → Time
  cutoff now = add now (pos 0 -w window)

  unfoldable pub log_call : LogCall → Past → Past
  log_call c p =
      let (answer, shard) =
        check_and_add_locked c.stamp key (cutoff c.now) limit c.cost c.now window p.shard in
      record {
        shard = shard;
        admitted = if answer.1 then replicate (pos_part c.cost) c.now ++ p.admitted else p.admitted;
      }

  unfoldable pub log_calls : List LogCall → Past → Past
  unfolding log_call
  log_calls [] p = p
  log_calls (c ∷ cs) p = log_calls cs (log_call c p)

  -- The calls come in the order of their times, the first not before `t`, and cost something.
  abbrev pub InOrder : Time → List LogCall → Type 0
  InOrder t [] = Unit
  InOrder t (c ∷ cs) =
      (t ≤ℤ c.now) × (pos 0 ≤ℤ c.cost) × InRange (limit +ℤ c.cost) × InOrder c.now cs

  -- The time of the last call, `t` if there is none.
  abbrev pub last_time : Time → List LogCall → Time
  last_time t [] = t
  last_time t (c ∷ cs) = last_time c.now cs

  -- The log holds what was let through in the window before a time, and that is within the limit.
  record Keeping (t : Time) (p : Past) : Type 0 where
    complete :
        (late : Time)
        → cutoff t ≤ℤ late
        → count_from late (log_of p.shard key) ≡ count_from late p.admitted
    within : pos (count_from (cutoff t) p.admitted) ≤ℤ limit

  module _ (c : LogCall) (p : Past) where
    -- The log as the call trims it.
    abbrev trimmed : List Time
    trimmed = not_before (cutoff c.now) (log_of p.shard key)

    trimmed_complete :
        (t late : Time)
        → cutoff t ≤ℤ cutoff c.now
        → cutoff c.now ≤ℤ late
        → Keeping t p
        → count_from late trimmed ≡ count_from late p.admitted
    trimmed_complete t late h k keep =
        count_from-not_before (cutoff c.now) late (log_of p.shard key) k
        ∙ keep.complete late (omega arith)

    -- The call finds too many entries for its cost.
    abbrev over : Bool
    over = ltb_ℤ limit (pos (length trimmed) +w c.cost)

    log_call-log :
        log_of (log_call c p).shard key
        ≡ (if over then trimmed else sort_times (trimmed ++ replicate (pos_part c.cost) c.now))
    unfolding log_call check_and_add_locked extend_log
    log_call-log = ground (arith, eq_iff key key)

    log_call-admitted :
        (log_call c p).admitted
        ≡ (if over then p.admitted else replicate (pos_part c.cost) c.now ++ p.admitted)
    unfolding log_call check_and_add_locked
    log_call-admitted = ground arith

    cutoff-mono : (t : Time) → t ≤ℤ c.now → cutoff t ≤ℤ cutoff c.now
    unfolding cutoff add
    cutoff-mono t h = omega (arith, +ℤ_parts t (pos 0 -w window), +ℤ_parts c.now (pos 0 -w window))

    trimmed-length :
        (t : Time)
        → cutoff t ≤ℤ cutoff c.now
        → Keeping t p
        → length trimmed ≡ count_from (cutoff c.now) p.admitted
    unfolding count_from
    trimmed-length t h keep = keep.complete (cutoff c.now) h

    -- What is let through stays within the limit.
    room_for_cost :
        (t : Time)
        → t ≤ℤ c.now
        → pos 0 ≤ℤ c.cost
        → InRange (limit +ℤ c.cost)
        → Keeping t p
        → over ≡ false
        → pos (length trimmed + pos_part c.cost) ≤ℤ limit
    room_for_cost t h hc hr keep room = ground (
      arith,
      fits,
      +w_exact_below (pos (length trimmed)) limit c.cost (omega arith) hc fits hr,
      +ℤ_parts (pos (length trimmed)) c.cost,
      neg_part-nonneg c.cost hc,
    )
      where
        fits : pos (length trimmed) ≤ℤ limit
        fits = omega (
          arith,
          keep.within,
          trimmed-length t (cutoff-mono t h) keep,
          count_from-anti (cutoff t) (cutoff c.now) p.admitted (cutoff-mono t h),
        )

    log_call-Keeping :
        (t : Time)
        → t ≤ℤ c.now
        → pos 0 ≤ℤ c.cost
        → InRange (limit +ℤ c.cost)
        → Keeping t p
        → Keeping c.now (log_call c p)
    log_call-Keeping t h hc hr keep = elim (Bool-cases over) [
      | inl full ↦ record {
        complete = λ late k.
            rw (log_call-log, log_call-admitted, full) (trimmed_complete t late mono k keep);
        within =
            rw (log_call-admitted, full)
              (omega
                (arith, keep.within, count_from-anti (cutoff t) (cutoff c.now) p.admitted mono));
      }
      | inr room ↦ record {
        complete = λ late k.
            rw (log_call-log, log_call-admitted, room)
              (omega (
                arith,
                count_from-sort late (trimmed ++ units),
                count_from-append late trimmed units,
                count_from-append late units p.admitted,
                trimmed_complete t late mono k keep,
              ));
        within =
            rw (log_call-admitted, room)
              (omega (
                arith,
                room_for_cost t h hc hr keep room,
                count_from-append (cutoff c.now) units p.admitted,
                count_from-le-length (cutoff c.now) units,
                length-replicate (pos_part c.cost) c.now,
                trimmed-length t mono keep,
              ));
      }
    ]
      where
        mono : cutoff t ≤ℤ cutoff c.now
        mono = cutoff-mono t h

        units : List Time
        units = replicate (pos_part c.cost) c.now

  log_calls-Keeping :
      (t : Time) (cs : List LogCall) (p : Past)
      → InOrder t cs
      → Keeping t p
      → Keeping (last_time t cs) (log_calls cs p)
  unfolding log_calls
  log_calls-Keeping t [] p ordered keep = keep
  log_calls-Keeping t (c ∷ cs) p ordered keep =
      log_calls-Keeping c.now cs (log_call c p) ordered.3
        (log_call-Keeping c p t ordered.0 ordered.1 ordered.2 keep)

  -- From an empty log, calls in the order of their times: the cost that was let through in the window
  -- before the last call, or later, is within the limit.
  pub rolling_limit :
      (t : Time) (cs : List LogCall) (shard : Shard)
      → pos 0 ≤ℤ limit
      → shard.timestamps key ≡ none
      → InOrder t cs
      → let p = log_calls cs (record { shard = shard; admitted = [] }) in
        pos (count_from (cutoff (last_time t cs)) p.admitted) ≤ℤ limit
  rolling_limit t cs shard positive fresh ordered =
      (log_calls-Keeping t cs (record { shard = shard; admitted = [] }) ordered
        (record {
          complete = λ late k. rw fresh;
          within = unfold count_from not_before in omega arith;
        })).within
