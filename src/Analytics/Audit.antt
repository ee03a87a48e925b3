-- ===== src/Analytics/Audit.antt =====
-- internal/analytics/audit.go. A channel is a buffer of bounded length; a goroutine's step takes place at once.
pub mod Steps
pub mod Drain
pub mod Late
use Prim.Native.Nat.{ℕ, ◌<◌, ◌≤◌}
use rlaas.Base.{String, List, [], ◌∷◌, ◌++◌, Bool, true, false, ◌≡◌, if◌then◌else◌}
use rlaas.Base.Lists.{length}
use rlaas.Base.Int.{ℤ, pos, pos_part, leb_ℤ}
use rlaas.Base.Int64.{Int64}
use rlaas.Base.Time.{Time, is_zero}
use rlaas.Base.Exec.{Result, ok, err, Exec}
use rlaas.Model.{StringMap}

pub record DecisionRecord : Type 0 where
  pub timestamp : Time
  pub request_id : String
  pub tenant_id : String
  pub policy_id : String
  pub action : String
  pub allowed : Bool
  pub reason : String
  pub source_ip : String
  pub endpoint : String
  pub latency_us : Int64
  pub tags : StringMap

-- `FileAuditLogger.Log`; `encode` is the JSON encoder on the open file.
unfoldable pub file_log :
    {S : Type 0} → (DecisionRecord → Exec S (Unit {0})) → Time → DecisionRecord → Exec S (Unit {0})
unfolding is_zero
file_log encode now rec =
    encode (if is_zero rec.timestamp then record rec { timestamp = now } else rec)

-- Where the logger's goroutine stands: before its `select`, draining what is left, or over.
pub data Phase : Type 0 where
  serving draining finished : Phase

-- `handed` has the records that were given to the inner logger, and `accepted` those for which `Log`
-- answered nil, each in the order in which that happened.
pub record AsyncLogger : Type 0 where
  pub capacity : ℕ
  pub buffer : List DecisionRecord
  pub stopping : Bool
  pub phase : Phase
  pub handed : List DecisionRecord
  pub accepted : List DecisionRecord

unfoldable pub new_async : ℤ → AsyncLogger
new_async buf_size = record {
  capacity = if leb_ℤ buf_size (pos 0) then 8192 else pos_part buf_size;
  buffer = [];
  stopping = false;
  phase = serving;
  handed = [];
  accepted = [];
}

-- The inner logger gets the record at the head of the buffer.
unfoldable pub hand_over : DecisionRecord → List DecisionRecord → AsyncLogger → AsyncLogger
hand_over rec rest a = record a { buffer = rest; handed = a.handed ++ rec ∷ [] }

-- `Log` puts a record behind the others, and answers nil.
unfoldable pub enqueue : DecisionRecord → AsyncLogger → AsyncLogger
enqueue rec a = record a { buffer = a.buffer ++ rec ∷ []; accepted = a.accepted ++ rec ∷ [] }

-- A step of a caller or of the goroutine.
pub data Step (a : AsyncLogger) : AsyncLogger → Type 0 where
  -- `Log` with room in the buffer, which answers nil.
  accept : (rec : DecisionRecord) → length a.buffer < a.capacity → Step a (enqueue rec a)
  -- `Log` with a full buffer answers with an error.
  reject : (rec : DecisionRecord) → a.capacity ≤ length a.buffer → Step a a
  -- `close(a.stop)` in `Close`; a second one panics.
  stop : a.stopping ≡ false → Step a (record a { stopping = true })
  -- The `select` takes a record, which it may also when the channel `stop` is closed.
  serve :
      (rec : DecisionRecord) (rest : List DecisionRecord)
      → a.phase ≡ serving
      → a.buffer ≡ rec ∷ rest
      → Step a (hand_over rec rest a)
  -- The `select` takes the closed channel.
  notice : a.phase ≡ serving → a.stopping ≡ true → Step a (record a { phase = draining })
  drain :
      (rec : DecisionRecord) (rest : List DecisionRecord)
      → a.phase ≡ draining
      → a.buffer ≡ rec ∷ rest
      → Step a (hand_over rec rest a)
  -- The inner `select` finds nothing.
  finish : a.phase ≡ draining → a.buffer ≡ [] → Step a (record a { phase = finished })

pub data Reach (a : AsyncLogger) : AsyncLogger → Type 0 where
  here : Reach a a
  next : {b c : AsyncLogger} → Reach a b → Step b c → Reach a c
