-- ===== src/Analytics/Audit/Steps.antt =====
-- What the steps of audit.go's asynchronous logger keep.
use Prim.Native.Nat.{◌≤◌}
use mathlib.Core.List.{append_assoc}
use rlaas.Base.{List, [], ◌∷◌, ◌++◌, ◌≡◌, ◌∙◌, refl, sym, ap, arith}
use rlaas.Base.Lists.{length, length-append}
use rlaas.Base.Int.{ℤ}
use rlaas.Analytics.Audit.{
  DecisionRecord, AsyncLogger, new_async, enqueue, hand_over, Step, accept, reject, stop, serve,
  notice, drain, finish, Reach, here, next,
}

-- Nothing is lost or moved ahead, and the buffer has its length.
pub record IsKept (a : AsyncLogger) : Type 0 where
  pub in_order : a.handed ++ a.buffer ≡ a.accepted
  pub fits : length a.buffer ≤ a.capacity

hand_over-IsKept :
    (rec : DecisionRecord) (rest : List DecisionRecord) (a : AsyncLogger)
    → a.buffer ≡ rec ∷ rest
    → IsKept a
    → IsKept (hand_over rec rest a)
unfolding hand_over
hand_over-IsKept rec rest a at v = record {
  in_order = append_assoc a.handed (rec ∷ []) rest ∙ ap (λ b. a.handed ++ b) (sym at) ∙ v.in_order;
  fits = omega (arith, ap length at, v.fits);
}

Step-IsKept : {a b : AsyncLogger} → Step a b → IsKept a → IsKept b
Step-IsKept {a} (accept rec room) v =
    unfold enqueue in
    record {
      in_order =
          sym (append_assoc a.handed a.buffer (rec ∷ [])) ∙ ap (λ l. l ++ rec ∷ []) v.in_order;
      fits = omega (arith, length-append a.buffer (rec ∷ []), room);
    }
Step-IsKept (reject rec full) v = v
Step-IsKept (stop once) v = record { in_order = v.in_order; fits = v.fits }
Step-IsKept {a} (serve rec rest ph at) v = hand_over-IsKept rec rest a at v
Step-IsKept (notice ph st) v = record { in_order = v.in_order; fits = v.fits }
Step-IsKept {a} (drain rec rest ph at) v = hand_over-IsKept rec rest a at v
Step-IsKept (finish ph at) v = record { in_order = v.in_order; fits = v.fits }

-- Through any steps of callers and of the goroutine, the records that were accepted are, in their order, those
-- that were handed to the inner logger and then those in the buffer, which keeps to its capacity.
pub Reach-IsKept : (buf_size : ℤ) {a : AsyncLogger} → Reach (new_async buf_size) a → IsKept a
Reach-IsKept buf_size here = unfold new_async in record { in_order = refl; fits = omega arith }
Reach-IsKept buf_size (next r st) = Step-IsKept st (Reach-IsKept buf_size r)
