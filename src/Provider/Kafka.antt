-- ===== src/Provider/Kafka.antt =====
-- internal/adapter/kafka/adapter.go.
use Prim.Native.Nat.{ℕ}
use rlaas.Base.{String, List, ◌==◌, if◌then◌else◌}
use rlaas.Base.Int64.{Int64}
use rlaas.Base.Time.{Time}
use rlaas.Model.{StringMap}
use rlaas.Engine.Evaluator.{put_entry}
use rlaas.Provider.{TelemetryRecord, zero_record, event, BatchProcessor, filter_with}

pub record Message : Type 0 where
  pub topic : String
  pub partition : Int64
  pub offset : Int64
  pub key : String
  pub headers : StringMap
  pub timestamp : Time
  pub consumer_group : String
  pub service : String

-- The copy of the headers has the same entries.
unfoldable pub message_tags : Message → StringMap
unfolding put_entry
message_tags m =
    let tags = put_entry "kafka.key" m.key m.headers in
    if m.consumer_group == "" then tags else put_entry "kafka.consumer_group" m.consumer_group tags

unfoldable pub message_record : String → Message → TelemetryRecord
unfolding message_tags
message_record org_id m = record zero_record {
  signal = event;
  org_id = org_id;
  service = m.service;
  operation = m.topic;
  tags = message_tags m;
}

unfoldable pub filter_messages :
    {S : Type 0} → BatchProcessor S → String → List ℕ → List Message → S → List Message × S
unfolding filter_with message_record
filter_messages bp org_id order messages s = filter_with bp (message_record org_id) order messages s
