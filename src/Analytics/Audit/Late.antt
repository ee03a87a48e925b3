-- ===== src/Analytics/Audit/Late.antt =====
-- Records that reach audit.go's asynchronous logger after its goroutine has ended.
use Prim.Native.Nat.{ℕ, ◌<◌, ◌≤◌, ◌+◌}
use rlaas.Base.{List, [], ◌∷◌, ◌≡◌, refl, ap, arith}
use rlaas.Base.Lists.{length, length-append}
use rlaas.Base.Int.{ℤ}
use rlaas.Analytics.Audit.{
  DecisionRecord, finished, AsyncLogger, new_async, enqueue, Step, accept, reject, stop, serve,
  notice, drain, finish, Reach, here, next,
}
use rlaas.Analytics.Audit.Steps.{Reach-IsKept}

-- The goroutine is over with these records handed on, and at least as many were accepted.
record IsOver (handed : List DecisionRecord) (count : ℕ) (a : AsyncLogger) : Type 0 where
  over : a.phase ≡ finished
  same : a.handed ≡ handed
  many : count ≤ length a.accepted

Step-IsOver :
    (handed : List DecisionRecord) (count : ℕ) {a b : AsyncLogger}
    → Step a b
    → IsOver handed count a
    → IsOver handed count b
Step-IsOver handed count {a} (accept rec room) v =
    unfold enqueue in
    record {
      over = v.over;
      same = v.same;
      many = omega (arith, length-append a.accepted (rec ∷ []), v.many);
    }
Step-IsOver handed count (reject rec full) v = v
Step-IsOver handed count (stop once) v = record { over = v.over; same = v.same; many = v.many }
Step-IsOver handed count (serve rec rest ph at) v = absurd (grind (arith, ph, v.over))
Step-IsOver handed count (notice ph st) v = absurd (grind (arith, ph, v.over))
Step-IsOver handed count (drain rec rest ph at) v = absurd (grind (arith, ph, v.over))
Step-IsOver handed count (finish ph at) v = absurd (grind (arith, ph, v.over))

Reach-IsOver :
    (handed : List DecisionRecord) (count : ℕ) {a b : AsyncLogger}
    → Reach a b
    → IsOver handed count a
    → IsOver handed count b
Reach-IsOver handed count here v = v
Reach-IsOver handed count (next r st) v =
    Step-IsOver handed count st (Reach-IsOver handed count r v)

-- In a state that the logger comes to, with the goroutine ended and room in the buffer: `Log` still accepts
-- a record, which it answers with nil, and whatever calls follow, the inner logger gets nothing more and has fewer
-- records than were accepted: one at least is lost.
pub late_records_lost :
    (buf_size : ℤ) (rec : DecisionRecord) {a b : AsyncLogger}
    → Reach (new_async buf_size) a
    → a.phase ≡ finished
    → length a.buffer < a.capacity
    → Reach (enqueue rec a) b
    → Step a (enqueue rec a) × (b.handed ≡ a.handed) × (length b.handed < length b.accepted)
late_records_lost buf_size rec {a} {b} r over room later =
    let kept = ap length (Reach-IsKept buf_size r).in_order in
    let start : IsOver a.handed (length a.accepted + 1) (enqueue rec a) =
      unfold enqueue in
      record {
        over = over;
        same = refl;
        many = omega (arith, length-append a.accepted (rec ∷ []));
      } in
    let v = Reach-IsOver a.handed (length a.accepted + 1) later start in
    (
      accept rec room,
      v.same,
      omega (arith, kept, length-append a.handed a.buffer, ap length v.same, v.many),
    )
