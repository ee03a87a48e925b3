-- ===== src/Tests/Samples.antt =====
-- Policies, requests and stores for the tests.
use rlaas.Base.{true, [], none}
use rlaas.Base.Int.{pos}
use rlaas.Base.Time.{Time}
use rlaas.Model.{
  RequestContext, PolicyScope, AlgorithmConfig, zero_config, fixed_window, deny, fail_open, enforce,
  Policy,
}
use rlaas.Store.Memory.{new}
use rlaas.Store.Memory.Node.{Node}
use rlaas.Algorithm.Budget.{Readings}

-- 100 seconds after the zero time.
abbrev pub noon : Time
noon = pos 100000000000

abbrev pub readings : Readings
readings = record { now = noon; wall = noon }

abbrev pub node : Node
node = record { store = new; now = noon }

abbrev pub acme_request : RequestContext
acme_request = record {
  request_id = "r1";
  org_id = "acme";
  tenant_id = "";
  application = "";
  service = "orders";
  environment = "";
  signal_type = "http";
  operation = "";
  endpoint = "/v1/orders";
  method = "GET";
  user_id = "u1";
  api_key = "";
  client_id = "";
  source_ip = "";
  region = "";
  resource = "";
  severity = "";
  span_name = "";
  topic = "";
  consumer_group = "";
  job_type = "";
  quantity = pos 3;
  priority = "";
  timestamp = noon;
  tags = [];
  attributes = [];
}

abbrev pub acme_scope : PolicyScope
acme_scope = record {
  org_id = "acme";
  tenant_id = "";
  application = "";
  service = "";
  environment = "";
  signal_type = "";
  operation = "";
  endpoint = "";
  method = "";
  user_id = "";
  api_key = "";
  client_id = "";
  source_ip = "";
  region = "";
  resource = "";
  severity = "";
  span_name = "";
  topic = "";
  consumer_group = "";
  job_type = "";
  tags = [];
}

-- Ten units a minute.
abbrev pub per_minute : AlgorithmConfig
per_minute = record zero_config { type = fixed_window; limit = pos 10 }

abbrev pub acme_policy : Policy
acme_policy = record {
  policy_id = "p1";
  name = "acme";
  description = "";
  enabled = true;
  priority = pos 1;
  scope = acme_scope;
  algorithm = per_minute;
  action = deny;
  failure_mode = fail_open;
  enforcement_mode = enforce;
  rollout_percent = pos 30;
  valid_from_unix = pos 0;
  valid_to_unix = pos 0;
  metadata = none;
}
