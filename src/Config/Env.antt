-- ===== src/Config/Env.antt =====
-- `LoadFromEnv` of internal/config/config.go. The environment and `strconv.ParseInt` are parameters.
use rlaas.Base.{String, List, Bool, true, Option, none, some, ◌==◌, if◌then◌else◌}
use rlaas.Base.Int64.{Int64}
use rlaas.Base.Trim.{split_at}
use rlaas.Base.Time.{Duration}
use rlaas.Base.ParseDuration.{parse_duration}
use rlaas.Config.{
  ServerConfig, TlsConfig, AuthConfig, ClusterConfig, AuditLogConfig, LoggingConfig,
  PolicyBackendConfig, CounterBackendConfig, Config, default_config,
}

module _ (getenv : String → String) (parse_int : String → Option Int64) where
  -- The value of a variable that is set, else what the field had.
  text_from : String → String → String
  text_from name old = let v = getenv name in if v == "" then old else v

  list_from : String → List String → List String
  unfolding split_at
  list_from name old = let v = getenv name in if v == "" then old else split_at b',' v

  flag_from : String → Bool → Bool
  flag_from name old = if getenv name == "true" then true else old

  duration_or : Duration → Option Duration → Duration
  duration_or old none = old
  duration_or old (some d) = d

  duration_from : String → Duration → Duration
  unfolding duration_or parse_duration
  duration_from name old =
      let v = getenv name in if v == "" then old else duration_or old (parse_duration v)

  int_from : String → Int64 → Int64
  unfolding duration_or
  int_from name old = let v = getenv name in if v == "" then old else duration_or old (parse_int v)

  unfoldable pub server_from : ServerConfig → ServerConfig
  unfolding duration_from int_from text_from
  server_from c = record c {
    http_addr = text_from "RLAAS_HTTP_ADDR" c.http_addr;
    grpc_addr = text_from "RLAAS_GRPC_ADDR" c.grpc_addr;
    read_timeout = duration_from "RLAAS_READ_TIMEOUT" c.read_timeout;
    write_timeout = duration_from "RLAAS_WRITE_TIMEOUT" c.write_timeout;
    max_body_bytes = int_from "RLAAS_MAX_BODY_BYTES" c.max_body_bytes;
  }

  unfoldable pub tls_from : TlsConfig → TlsConfig
  unfolding flag_from text_from
  tls_from c = record c {
    enabled = flag_from "RLAAS_TLS_ENABLED" c.enabled;
    cert_file = text_from "RLAAS_TLS_CERT_FILE" c.cert_file;
    key_file = text_from "RLAAS_TLS_KEY_FILE" c.key_file;
    ca_file = text_from "RLAAS_TLS_CA_FILE" c.ca_file;
  }

  unfoldable pub auth_from : AuthConfig → AuthConfig
  unfolding flag_from list_from text_from
  auth_from c = record c {
    enabled = flag_from "RLAAS_AUTH_ENABLED" c.enabled;
    mode = text_from "RLAAS_AUTH_MODE" c.mode;
    api_keys = list_from "RLAAS_AUTH_API_KEYS" c.api_keys;
    jwt_secret = text_from "RLAAS_AUTH_JWT_SECRET" c.jwt_secret;
    jwt_issuer = text_from "RLAAS_AUTH_JWT_ISSUER" c.jwt_issuer;
    jwt_audience = text_from "RLAAS_AUTH_JWT_AUDIENCE" c.jwt_audience;
    admin_role = text_from "RLAAS_AUTH_ADMIN_ROLE" c.admin_role;
    read_only_role = text_from "RLAAS_AUTH_READONLY_ROLE" c.read_only_role;
    oidc_issuer_url = text_from "RLAAS_AUTH_OIDC_ISSUER_URL" c.oidc_issuer_url;
  }

  unfoldable pub counter_from : CounterBackendConfig → CounterBackendConfig
  unfolding text_from
  counter_from c = record c {
    driver = text_from "RLAAS_COUNTER_BACKEND" c.driver;
    address = text_from "RLAAS_REDIS_ADDR" c.address;
    password = text_from "RLAAS_REDIS_PASSWORD" c.password;
  }

  unfoldable pub policy_from : PolicyBackendConfig → PolicyBackendConfig
  unfolding text_from
  policy_from c = record c {
    driver = text_from "RLAAS_POLICY_BACKEND" c.driver;
    dsn = text_from "RLAAS_POLICY_DSN" c.dsn;
  }

  unfoldable pub cluster_from : ClusterConfig → ClusterConfig
  unfolding flag_from list_from text_from
  cluster_from c = record c {
    enabled = flag_from "RLAAS_CLUSTER_ENABLED" c.enabled;
    node_id = text_from "RLAAS_CLUSTER_NODE_ID" c.node_id;
    redis_mode = text_from "RLAAS_CLUSTER_REDIS_MODE" c.redis_mode;
    redis_sentinel_addrs = list_from "RLAAS_CLUSTER_SENTINEL_ADDRS" c.redis_sentinel_addrs;
    redis_master_name = text_from "RLAAS_CLUSTER_SENTINEL_MASTER" c.redis_master_name;
    region_name = text_from "RLAAS_CLUSTER_REGION" c.region_name;
    invalidation_driver = text_from "RLAAS_INVALIDATION_DRIVER" c.invalidation_driver;
    invalidation_addr = text_from "RLAAS_INVALIDATION_ADDR" c.invalidation_addr;
  }

  unfoldable pub audit_from : AuditLogConfig → AuditLogConfig
  unfolding flag_from text_from
  audit_from c = record c {
    enabled = flag_from "RLAAS_AUDIT_ENABLED" c.enabled;
    driver = text_from "RLAAS_AUDIT_DRIVER" c.driver;
    file_path = text_from "RLAAS_AUDIT_FILE" c.file_path;
    dsn = text_from "RLAAS_AUDIT_DSN" c.dsn;
  }

  unfoldable pub logging_from : LoggingConfig → LoggingConfig
  unfolding text_from
  logging_from c = record c {
    level = text_from "RLAAS_LOG_LEVEL" c.level;
    format = text_from "RLAAS_LOG_FORMAT" c.format;
  }

  unfoldable pub load_from_env : Config
  unfolding default_config text_from server_from tls_from auth_from counter_from policy_from
      cluster_from audit_from logging_from
  load_from_env =
      let c = default_config in
      record c {
        mode = text_from "RLAAS_MODE" c.mode;
        server = server_from c.server;
        tls = tls_from c.tls;
        auth = auth_from c.auth;
        counter_backend = counter_from c.counter_backend;
        policy_backend = policy_from c.policy_backend;
        cluster = cluster_from c.cluster;
        audit_log = audit_from c.audit_log;
        logging = logging_from c.logging;
      }
