-- ===== src/Model.antt =====
-- pkg/model/model.go: the data types that every part shares. A Go string type with named constants
-- is a data type with a constructor for each constant and `other` for every other text.
use rlaas.Base.{ℕ, String, Bool, false, List, [], Option}
use rlaas.Base.Int.{pos}
use rlaas.Base.Int64.{Int64}
use rlaas.Base.Time.{Time, Duration}

-- A `float64`, by its IEEE 754 bit pattern. Its arithmetic is a parameter of the code that uses it.
pub record Float64 : Type 0 where
  pub bits : ℕ

abbrev pub float_zero : Float64
float_zero = record { bits = 0 }

-- `map[string]string`, each key once. The code never depends on the order.
abbrev pub StringMap : Type 0
StringMap = List (String × String)

pub record RequestContext : Type 0 where
  pub request_id : String
  pub org_id : String
  pub tenant_id : String
  pub application : String
  pub service : String
  pub environment : String
  pub signal_type : String
  pub operation : String
  pub endpoint : String
  pub method : String
  pub user_id : String
  pub api_key : String
  pub client_id : String
  pub source_ip : String
  pub region : String
  pub resource : String
  pub severity : String
  pub span_name : String
  pub topic : String
  pub consumer_group : String
  pub job_type : String
  pub quantity : Int64
  pub priority : String
  pub timestamp : Time
  pub tags : StringMap
  pub attributes : StringMap

-- `model.RequestContext{}`.
abbrev pub zero_request : RequestContext
zero_request = record {
  request_id = "";
  org_id = "";
  tenant_id = "";
  application = "";
  service = "";
  environment = "";
  signal_type = "";
  operation = "";
  endpoint = "";
  method = "";
  user_id = "";
  api_key = "";
  client_id = "";
  source_ip = "";
  region = "";
  resource = "";
  severity = "";
  span_name = "";
  topic = "";
  consumer_group = "";
  job_type = "";
  quantity = pos 0;
  priority = "";
  timestamp = pos 0;
  tags = [];
  attributes = [];
}

pub data ActionType : Type 0 where
  allow deny delay sample drop downgrade drop_low_priority shadow_only : ActionType
  other : String → ActionType

-- `string(action)`.
pub action_text : ActionType → String
action_text allow = "allow"
action_text deny = "deny"
action_text delay = "delay"
action_text sample = "sample"
action_text drop = "drop"
action_text downgrade = "downgrade"
action_text drop_low_priority = "drop_low_priority"
action_text shadow_only = "shadow_only"
action_text (other s) = s

-- A nil map of metadata is `none`.
pub record Decision : Type 0 where
  pub allowed : Bool
  pub action : ActionType
  pub reason : String
  pub matched_policy_id : String
  pub matched_rule_key : String
  pub limit_key : String
  pub remaining : Int64
  pub retry_after : Duration
  pub reset_at : Time
  pub delay_for : Duration
  pub sample_rate : Float64
  pub shadow_mode : Bool
  pub metadata : Option StringMap

-- `model.Decision{}`: a literal that leaves fields out has their zero values.
abbrev pub zero_decision : Decision
zero_decision = record {
  allowed = false;
  action = other "";
  reason = "";
  matched_policy_id = "";
  matched_rule_key = "";
  limit_key = "";
  remaining = pos 0;
  retry_after = pos 0;
  reset_at = pos 0;
  delay_for = pos 0;
  sample_rate = float_zero;
  shadow_mode = false;
  metadata = Option.none;
}

pub record PolicyScope : Type 0 where
  pub org_id : String
  pub tenant_id : String
  pub application : String
  pub service : String
  pub environment : String
  pub signal_type : String
  pub operation : String
  pub endpoint : String
  pub method : String
  pub user_id : String
  pub api_key : String
  pub client_id : String
  pub source_ip : String
  pub region : String
  pub resource : String
  pub severity : String
  pub span_name : String
  pub topic : String
  pub consumer_group : String
  pub job_type : String
  pub tags : StringMap

pub data AlgorithmType : Type 0 where
  fixed_window sliding_window_log sliding_window_counter token_bucket leaky_bucket concurrency
        quota :
      AlgorithmType
  unknown : String → AlgorithmType

pub record AlgorithmConfig : Type 0 where
  pub type : AlgorithmType
  pub limit : Int64
  pub window : String
  pub burst : Int64
  pub refill_rate : Float64
  pub leak_rate : Float64
  pub sub_window_count : Int64
  pub max_concurrency : Int64
  pub lease_ttl : Int64
  pub quota_period : String
  pub cost_per_request : Int64
  pub max_retries : Int64
  pub sample_rate : Float64

-- `model.AlgorithmConfig{}`.
abbrev pub zero_config : AlgorithmConfig
zero_config = record {
  type = unknown "";
  limit = pos 0;
  window = "";
  burst = pos 0;
  refill_rate = float_zero;
  leak_rate = float_zero;
  sub_window_count = pos 0;
  max_concurrency = pos 0;
  lease_ttl = pos 0;
  quota_period = "";
  cost_per_request = pos 0;
  max_retries = pos 0;
  sample_rate = float_zero;
}

pub data FailureMode : Type 0 where
  fail_open fail_closed : FailureMode
  unset_failure : String → FailureMode

pub data EnforcementMode : Type 0 where
  enforce shadow : EnforcementMode
  unset_enforcement : String → EnforcementMode

pub record Policy : Type 0 where
  pub policy_id : String
  pub name : String
  pub description : String
  pub enabled : Bool
  pub priority : Int64
  pub scope : PolicyScope
  pub algorithm : AlgorithmConfig
  pub action : ActionType
  pub failure_mode : FailureMode
  pub enforcement_mode : EnforcementMode
  pub rollout_percent : Int64
  pub valid_from_unix : Int64
  pub valid_to_unix : Int64
  pub metadata : Option StringMap

pub record PolicyAuditEntry : Type 0 where
  pub audit_id : String
  pub policy_id : String
  pub action_type : String
  pub changed_by : String
  pub changed_at_unix : Int64
  pub old_value : Option Policy
  pub new_value : Option Policy

pub record PolicyVersion : Type 0 where
  pub policy_id : String
  pub version : Int64
  pub created_at_unix : Int64
  pub snapshot : Policy
