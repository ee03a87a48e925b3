-- ===== src/Broker/Delivery.antt =====
-- How an event of internal/controlplane/invalidation/broker.go gets from one instance to another.
use Prim.Native.Nat.{◌+◌, ◌<◌}
use Prim.Native.String.append
use rlaas.Base.{String, true, some, ◌<>◌, ◌≡◌, refl, ap, ◌∙◌, arith, ltb, lt→ltb}
use rlaas.Base.Exec.{Result, ok}
use rlaas.Model.{StringMap}
use rlaas.Broker.{
  DistributedTransport, Broker, channel_name, text_length, drop_text, topic_of, dispatch_local,
  received, receive, sent, send, publish,
}

length-append : (a b : String) → text_length (a <> b) ≡ text_length a + text_length b
unfolding text_length
length-append String.[] b = rw (append.nil b) (omega arith)
length-append (String.◌∷◌ c a) b = rw (append.cons c a b) (omega (arith, length-append a b))

drop-append : (a b : String) → drop_text (text_length a) (a <> b) ≡ b
unfolding text_length drop_text
drop-append String.[] b = append.nil b
drop-append (String.◌∷◌ c a) b = rw (append.cons c a b) (drop-append a b)

topic-channel :
    (prefix topic : String) → 0 < text_length topic → topic_of prefix (prefix <> topic) ≡ topic
unfolding topic_of
topic-channel prefix topic some_text =
    let longer : ltb (text_length prefix) (text_length (prefix <> topic)) ≡ true =
      lt→ltb _ _ (omega (arith, some_text, length-append prefix topic)) in
    rw longer (drop-append prefix topic)

-- If the decoder undoes the encoder, the message that one instance sends for an event of a topic with a name makes
-- every instance with the same prefix, the sender too, call its own subscribers of that topic with that event.
pub published_event_arrives :
    {S T : Type 0} (encode : StringMap → Result String) (decode : String → Result StringMap)
    → (sender : Broker T) (receiver : Broker S) (d here : DistributedTransport)
    → (topic payload : String) (event : StringMap) (t : T) (s : S) → sender.distributed ≡ some d
    → here.prefix ≡ d.prefix
    → encode event ≡ ok payload
    → decode payload ≡ ok event
    → 0 < text_length topic
    → (message : String × String) × (publish encode sender topic event t ≡ sent message)
      × (receive decode receiver here message s ≡ dispatch_local receiver topic event s)
unfolding publish send receive received
published_event_arrives encode decode sender receiver d here topic payload event t s far same coded
      decoded name =
    (
      (channel_name d topic, payload),
      rw (far, publish) (rw coded refl),
      rw decoded (
          ap (λ x. dispatch_local receiver x event s)
            (ap (λ p. topic_of p (channel_name d topic)) same ∙ topic-channel d.prefix topic name)),
    )
