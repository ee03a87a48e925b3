-- ===== src/Analytics/Audit/Drain.antt =====
-- How the goroutine of audit.go's asynchronous logger ends.
use mathlib.Core.List.{append_assoc, append-nil}
use rlaas.Base.{List, [], ◌∷◌, ◌++◌, ◌≡◌, ◌∙◌, refl, sym, ap, arith}
use rlaas.Base.Int.{ℤ}
use rlaas.Analytics.Audit.{
  DecisionRecord, draining, finished, AsyncLogger, new_async, enqueue, hand_over, Step, accept,
  reject, stop, serve, notice, drain, finish, Reach, here, next,
}
use rlaas.Analytics.Audit.Steps.{IsKept, Reach-IsKept}

all_handed : (a : AsyncLogger) → IsKept a → a.buffer ≡ [] → a.handed ≡ a.accepted
all_handed a v empty = sym (append-nil a.handed) ∙ ap (λ b. a.handed ++ b) (sym empty) ∙ v.in_order

step_to_end :
    {a b : AsyncLogger}
    → IsKept a
    → Step a b
    → a.phase ≡ draining
    → b.phase ≡ finished
    → b.handed ≡ b.accepted
unfolding enqueue hand_over
step_to_end v (accept rec room) was is = absurd (grind (arith, was, is))
step_to_end v (reject rec full) was is = absurd (grind (arith, was, is))
step_to_end v (stop once) was is = absurd (grind (arith, was, is))
step_to_end v (serve rec rest ph at) was is = absurd (grind (arith, was, is))
step_to_end v (notice ph st) was is = absurd (grind (arith, was, is))
step_to_end v (drain rec rest ph at) was is = absurd (grind (arith, was, is))
step_to_end {a} v (finish ph empty) was is = all_handed a v empty

-- The step by which the goroutine ends leaves nothing behind: everything that `Log` has accepted by then was
-- handed to the inner logger, in its order.
pub ends_empty :
    (buf_size : ℤ) {a b : AsyncLogger}
    → Reach (new_async buf_size) a
    → Step a b
    → a.phase ≡ draining
    → b.phase ≡ finished
    → b.handed ≡ b.accepted
ends_empty buf_size r st was is = step_to_end (Reach-IsKept buf_size r) st was is

-- The goroutine, left to itself with what is in the buffer.
drained :
    (records : List DecisionRecord) {start : AsyncLogger} (a : AsyncLogger)
    → Reach start a
    → a.phase ≡ draining
    → a.buffer ≡ records
    → (b : AsyncLogger) × Reach start b
      × (b.phase ≡ finished)
      × (b.handed ≡ a.handed ++ records)
      × (b.accepted ≡ a.accepted)
drained [] a r ph at =
    (record a { phase = finished }, next r (finish ph at), refl, sym (append-nil a.handed), refl)
drained (rec ∷ rest) a r ph at =
    let one = hand_over rec rest a in
    let (b, reached, over, handed, same) =
      drained rest one (next r (drain rec rest ph at)) (unfold hand_over in ph)
        (unfold hand_over in refl) in
    (
      b,
      reached,
      over,
      handed ∙ (unfold hand_over in append_assoc a.handed (rec ∷ []) rest),
      same ∙ (unfold hand_over in refl),
    )

-- From every state in which the goroutine drains the buffer, it comes to its end by its own steps alone, with all
-- that `Log` had accepted handed to the inner logger and nothing more accepted.
pub drains_to_end :
    (buf_size : ℤ) {a : AsyncLogger}
    → Reach (new_async buf_size) a
    → a.phase ≡ draining
    → (b : AsyncLogger) × Reach a b
      × (b.phase ≡ finished)
      × (b.handed ≡ a.accepted)
      × (b.accepted ≡ a.accepted)
drains_to_end buf_size {a} r ph =
    let (b, reached, over, handed, same) = drained a.buffer a here ph refl in
    (b, reached, over, handed ∙ (Reach-IsKept buf_size r).in_order, same)
