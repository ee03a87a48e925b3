-- ===== src/Broker.antt =====
-- internal/controlplane/invalidation/broker.go: subscribers by topic, and the transport over Redis Pub/Sub. The
-- Redis client is a parameter: what it is told, and the messages that it brings. A call under a lock is one step.
pub mod Delivery
use Prim.Native.Nat.{ℕ, zero, suc}
use rlaas.Base.{
  String, List, [], ◌∷◌, ◌++◌, Bool, true, false, Option, none, some, not, ◌==◌, ◌||◌, ◌<>◌, ltb,
  if◌then◌else◌,
}
use rlaas.Base.Maps.{Map, put, get_or}
use rlaas.Base.Exec.{Result, ok, err}
use rlaas.Model.{StringMap}

-- A callback, which says whether it returned, and did not panic.
abbrev pub Callback : Type 0 → Type 0
Callback S = StringMap → S → Bool × S

-- `channels` has the channels that the client was told to subscribe to, in their order; `receiving` says that
-- the client's subscription is there and its loop runs.
pub record DistributedTransport : Type 0 where
  pub prefix : String
  pub subs : List String
  pub channels : List String
  pub receiving : Bool
  pub stopped : Bool

pub record Broker (S : Type 0) : Type 0 where
  pub subscribers : Map (List (Callback S))
  pub distributed : Option DistributedTransport

unfoldable pub new_broker : {S : Type 0} → Broker S
new_broker = record { subscribers = λ topic. none; distributed = none }

unfoldable pub new_transport : String → DistributedTransport
new_transport prefix = record {
  prefix = prefix;
  subs = [];
  channels = [];
  receiving = false;
  stopped = false;
}

unfoldable pub new_distributed_broker : {S : Type 0} → String → Broker S
unfolding new_transport
new_distributed_broker prefix = record {
  subscribers = λ topic. none;
  distributed = some (new_transport prefix);
}

abbrev pub channel_name : DistributedTransport → String → String
channel_name d topic = d.prefix <> topic

abbrev pub is_sub : String → List String → Bool
is_sub topic [] = false
is_sub topic (t ∷ ts) = (t == topic) || is_sub topic ts

unfoldable pub ensure_subscription : String → DistributedTransport → DistributedTransport
ensure_subscription topic d = if is_sub topic d.subs then d else record d {
  subs = topic ∷ d.subs;
  channels = d.channels ++ channel_name d topic ∷ [];
  receiving = true;
}

unfoldable pub stop_transport : DistributedTransport → DistributedTransport
stop_transport d = if d.stopped then d else record d { stopped = true; receiving = false }

on_transport :
    (DistributedTransport → DistributedTransport)
    → Option DistributedTransport
    → Option DistributedTransport
on_transport f none = none
on_transport f (some d) = some (f d)

-- The text behind as many code points as the prefix has.
unfoldable pub text_length : String → ℕ
text_length String.[] = 0
text_length (String.◌∷◌ c s) = suc (text_length s)

unfoldable pub drop_text : ℕ → String → String
drop_text zero s = s
drop_text (suc n) String.[] = ""
drop_text (suc n) (String.◌∷◌ c s) = drop_text n s

-- The topic of a message's channel, which begins with the prefix.
unfoldable pub topic_of : String → String → String
unfolding text_length drop_text
topic_of prefix channel =
    if ltb (text_length prefix) (text_length channel)
    then drop_text (text_length prefix) channel
    else channel

module _ {S : Type 0} where
  unfoldable pub subscribe : String → Callback S → Broker S → Broker S
  unfolding ensure_subscription on_transport
  subscribe topic fn b = record {
    subscribers = put b.subscribers topic (get_or (b.subscribers topic) [] ++ fn ∷ []);
    distributed = on_transport (ensure_subscription topic) b.distributed;
  }

  unfoldable pub stop : Broker S → Broker S
  unfolding stop_transport on_transport
  stop b = record b { distributed = on_transport stop_transport b.distributed }

  -- A callback that panics leaves what it has done, and the next one is called.
  unfoldable pub run_handlers : List (Callback S) → StringMap → S → S
  run_handlers [] event s = s
  run_handlers (h ∷ hs) event s = run_handlers hs event (h event s).1

  unfoldable pub dispatch_local : Broker S → String → StringMap → S → S
  unfolding run_handlers
  dispatch_local b topic event s = run_handlers (get_or (b.subscribers topic) []) event s

  received : Broker S → String → String → Result StringMap → S → S
  unfolding topic_of dispatch_local
  received b prefix channel (err why) s = s
  received b prefix channel (ok event) s = dispatch_local b (topic_of prefix channel) event s

  -- A turn of `receiveLoop` for a message; `decode` is `json.Unmarshal`.
  unfoldable pub receive :
      (String → Result StringMap) → Broker S → DistributedTransport → String × String → S → S
  unfolding received
  receive decode b d (channel, payload) s = received b d.prefix channel (decode payload) s

-- What `Publish` does: it calls the subscribers here, or sends a message.
pub data Published (S : Type 0) : Type 0 where
  called : S → Published S
  sent : String × String → Published S
  failed : String → Published S

send : {S : Type 0} → DistributedTransport → String → Result String → Published S
send d topic (err why) = failed ("invalidation: marshal event: " <> why)
send d topic (ok payload) = sent (channel_name d topic, payload)

-- `encode` is `json.Marshal`.
unfoldable pub publish :
    {S : Type 0} → (StringMap → Result String) → Broker S → String → StringMap → S → Published S
unfolding send dispatch_local
publish encode b topic event s = elim b.distributed [
  | none ↦ called (dispatch_local b topic event s)
  | some d ↦ send d topic (encode event)
]
