-- ===== src/Provider/FluentBit.antt =====
-- internal/adapter/fluentbit/adapter.go.
use Prim.Native.Nat.{ℕ}
use rlaas.Base.{String, List, ◌==◌, if◌then◌else◌}
use rlaas.Base.Time.{Time}
use rlaas.Model.{StringMap}
use rlaas.Engine.Matcher.{tag_of}
use rlaas.Provider.{TelemetryRecord, zero_record, log, BatchProcessor, filter_with}

pub record Record : Type 0 where
  pub timestamp : Time
  pub tag : String
  pub fields : StringMap

-- The names of the fields that an adapter reads.
pub record Fields : Type 0 where
  pub org_id : String
  pub service_field : String
  pub severity_field : String
  pub environment_field : String

-- `NewAdapter`, less its batch processor.
unfoldable pub default_fields : String → Fields
default_fields org_id = record {
  org_id = org_id;
  service_field = "service_name";
  severity_field = "level";
  environment_field = "environment";
}

-- The service, or else the routing tag.
unfoldable pub service_of : Fields → Record → String
unfolding tag_of
service_of f r =
    let service = tag_of r.fields f.service_field in if service == "" then r.tag else service

unfoldable pub fluent_record : Fields → Record → TelemetryRecord
unfolding service_of tag_of
fluent_record f r = record zero_record {
  signal = log;
  org_id = f.org_id;
  service = service_of f r;
  severity = tag_of r.fields f.severity_field;
  environment = tag_of r.fields f.environment_field;
  tags = r.fields;
}

unfoldable pub filter_records :
    {S : Type 0} → BatchProcessor S → Fields → List ℕ → List Record → S → List Record × S
unfolding filter_with fluent_record
filter_records bp f order records s = filter_with bp (fluent_record f) order records s
