-- ===== src/Provider/Datadog.antt =====
-- internal/adapter/datadog/adapter.go.
use Prim.Native.Nat.{ℕ}
use rlaas.Base.{String, List, [], ◌∷◌, none, some}
use rlaas.Base.Trim.{cut_at}
use rlaas.Model.{StringMap}
use rlaas.Engine.Evaluator.{put_entry}
use rlaas.Provider.{TelemetryRecord, zero_record, log, metric, BatchProcessor, filter_with}

pub record LogEntry : Type 0 where
  pub hostname : String
  pub service : String
  pub source : String
  pub tags : List String
  pub status : String
  pub message : String
  pub attrs : StringMap

pub record MetricSample : Type 0 where
  pub metric : String
  pub host : String
  pub service : String
  pub type : String
  pub tags : List String
  pub namespace : String
  pub attrs : StringMap

-- The loop over the `key:value` tags; a tag without a colon is passed over.
merge_tags : List String → StringMap → StringMap
merge_tags [] m = m
merge_tags (t ∷ ts) m = elim (cut_at b':' t) [
  | none ↦ merge_tags ts m
  | some (k, v) ↦ merge_tags ts (put_entry k v m)
]

-- `m[k] = v` for the entries of another map.
unfoldable pub put_all : StringMap → StringMap → StringMap
unfolding put_entry
put_all [] m = m
put_all ((k, v) ∷ rest) m = put_all rest (put_entry k v m)

unfoldable pub merge_tag_slice : List String → StringMap → StringMap
unfolding merge_tags put_all
merge_tag_slice tags attrs = put_all attrs (merge_tags tags [])

unfoldable pub log_record : String → LogEntry → TelemetryRecord
unfolding merge_tag_slice
log_record org_id l = record zero_record {
  signal = log;
  org_id = org_id;
  service = l.service;
  severity = l.status;
  tags = merge_tag_slice l.tags l.attrs;
}

unfoldable pub metric_record : String → MetricSample → TelemetryRecord
unfolding merge_tag_slice
metric_record org_id m = record zero_record {
  signal = metric;
  org_id = org_id;
  service = m.service;
  operation = m.metric;
  tags =
      put_entry "metric_name" m.metric
        (put_entry "metric_type" m.type (merge_tag_slice m.tags m.attrs));
}

module _ {S : Type 0} (bp : BatchProcessor S) (org_id : String) where
  unfoldable pub filter_logs : List ℕ → List LogEntry → S → List LogEntry × S
  unfolding filter_with log_record
  filter_logs order logs s = filter_with bp (log_record org_id) order logs s

  unfoldable pub filter_metrics : List ℕ → List MetricSample → S → List MetricSample × S
  unfolding filter_with metric_record
  filter_metrics order metrics s = filter_with bp (metric_record org_id) order metrics s
