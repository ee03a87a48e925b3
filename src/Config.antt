-- ===== src/Config.antt =====
-- internal/config/config.go: the settings, their defaults and their check.
pub mod Env
pub mod Serving
use rlaas.Base.{
  String, List, [], ◌∷◌, Bool, true, false, ◌==◌, ◌||◌, ◌&&◌, not, ◌<>◌, if◌then◌else◌,
}
use rlaas.Base.Int.{pos}
use rlaas.Base.Int64.{Int64}
use rlaas.Base.Time.{Duration}
use rlaas.Base.Exec.{Result, ok, err}

pub record ServerConfig : Type 0 where
  pub http_addr : String
  pub grpc_addr : String
  pub read_timeout : Duration
  pub write_timeout : Duration
  pub idle_timeout : Duration
  pub max_header_bytes : Int64
  pub max_body_bytes : Int64
  pub shutdown_timeout : Duration
  pub grpc_max_recv_bytes : Int64
  pub grpc_max_send_bytes : Int64

pub record TlsConfig : Type 0 where
  pub enabled : Bool
  pub cert_file : String
  pub key_file : String
  pub ca_file : String
  pub client_auth : String
  pub min_version : String
  pub cipher_suites : List String
  pub redis_tls : Bool

pub record AuthConfig : Type 0 where
  pub enabled : Bool
  pub mode : String
  pub api_keys : List String
  pub jwt_secret : String
  pub jwt_issuer : String
  pub jwt_audience : String
  pub oidc_issuer_url : String
  pub oidc_client_id : String
  pub admin_role : String
  pub read_only_role : String
  pub exempt_paths : List String

pub record ClusterConfig : Type 0 where
  pub enabled : Bool
  pub node_id : String
  pub peer_addresses : List String
  pub redis_mode : String
  pub redis_sentinel_addrs : List String
  pub redis_master_name : String
  pub region_name : String
  pub peer_regions : List String
  pub invalidation_driver : String
  pub invalidation_addr : String

pub record AuditLogConfig : Type 0 where
  pub enabled : Bool
  pub driver : String
  pub file_path : String
  pub dsn : String
  pub table_name : String
  pub retention : Duration

pub record LoggingConfig : Type 0 where
  pub level : String
  pub format : String

pub record PolicyBackendConfig : Type 0 where
  pub driver : String
  pub dsn : String
  pub table_name : String
  pub use_legacy_adapter : Bool

pub record CounterBackendConfig : Type 0 where
  pub driver : String
  pub address : String
  pub password : String
  pub db : Int64
  pub prefix : String

pub record Config : Type 0 where
  pub mode : String
  pub policy_backend : PolicyBackendConfig
  pub counter_backend : CounterBackendConfig
  pub cache_ttl : Duration
  pub refresh_interval : Duration
  pub default_failure_mode : String
  pub metrics_enabled : Bool
  pub shadow_metrics_enabled : Bool
  pub decision_log_enabled : Bool
  pub server : ServerConfig
  pub tls : TlsConfig
  pub auth : AuthConfig
  pub logging : LoggingConfig
  pub cluster : ClusterConfig
  pub audit_log : AuditLogConfig

unfoldable pub default_config : Config
default_config = record {
  mode = "server";
  policy_backend = record { driver = ""; dsn = ""; table_name = ""; use_legacy_adapter = false };
  counter_backend = record { driver = ""; address = ""; password = ""; db = pos 0; prefix = "" };
  cache_ttl = pos 30000000000;
  refresh_interval = pos 10000000000;
  default_failure_mode = "fail_open";
  metrics_enabled = true;
  shadow_metrics_enabled = false;
  decision_log_enabled = false;
  server = record {
    http_addr = ":8080";
    grpc_addr = ":9090";
    read_timeout = pos 5000000000;
    write_timeout = pos 10000000000;
    idle_timeout = pos 120000000000;
    max_header_bytes = pos 1048576;
    max_body_bytes = pos 1048576;
    shutdown_timeout = pos 15000000000;
    grpc_max_recv_bytes = pos 4194304;
    grpc_max_send_bytes = pos 4194304;
  };
  tls = record {
    enabled = false;
    cert_file = "";
    key_file = "";
    ca_file = "";
    client_auth = "";
    min_version = "1.2";
    cipher_suites = [];
    redis_tls = false;
  };
  auth = record {
    enabled = false;
    mode = "";
    api_keys = [];
    jwt_secret = "";
    jwt_issuer = "";
    jwt_audience = "";
    oidc_issuer_url = "";
    oidc_client_id = "";
    admin_role = "";
    read_only_role = "";
    exempt_paths = "/healthz" ∷ "/readyz" ∷ [];
  };
  logging = record { level = "info"; format = "json" };
  cluster = record {
    enabled = false;
    node_id = "";
    peer_addresses = [];
    redis_mode = "";
    redis_sentinel_addrs = [];
    redis_master_name = "";
    region_name = "";
    peer_regions = [];
    invalidation_driver = "";
    invalidation_addr = "";
  };
  audit_log = record {
    enabled = false;
    driver = "";
    file_path = "";
    dsn = "";
    table_name = "";
    retention = pos 0;
  };
}

-- `quote` is `%q`.
module _ (quote : String → String) where
  unfoldable pub check_mode : Config → Result (Unit {0})
  check_mode c =
      if (c.mode == "sdk") || (c.mode == "server") || (c.mode == "sidecar")
      then ok tt
      else err ("config: invalid mode " <> quote c.mode <> " (must be sdk, server, or sidecar)")

  unfoldable pub check_tls : TlsConfig → Result (Unit {0})
  check_tls t =
      if t.enabled && ((t.cert_file == "") || (t.key_file == ""))
      then err "config: tls.cert_file and tls.key_file are required when tls is enabled"
      else ok tt

  is_empty : List String → Bool
  is_empty [] = true
  is_empty (k ∷ ks) = false

  -- The modes of authentication, where it is switched on.
  unfoldable pub check_auth_mode : AuthConfig → Result (Unit {0})
  unfolding is_empty
  check_auth_mode a =
      if a.mode == "apikey"
      then (if is_empty a.api_keys
          then err "config: at least one api_key is required for apikey auth mode"
          else ok tt)
      else if a.mode == "jwt"
      then (if a.jwt_secret == ""
          then err "config: jwt_secret is required for jwt auth mode"
          else ok tt)
      else if a.mode == "oidc"
      then (if a.oidc_issuer_url == ""
          then err "config: oidc_issuer_url is required for oidc auth mode"
          else ok tt)
      else err ("config: invalid auth mode " <> quote a.mode)

  unfoldable pub check_auth : AuthConfig → Result (Unit {0})
  unfolding check_auth_mode
  check_auth a = if a.enabled then check_auth_mode a else ok tt

  unfoldable pub check_cluster : ClusterConfig → Result (Unit {0})
  check_cluster c =
      if not c.enabled
      then ok tt
      else if not (
          (c.redis_mode == "")
          || (c.redis_mode == "single")
          || (c.redis_mode == "cluster")
          || (c.redis_mode == "sentinel"))
      then err ("config: invalid cluster.redis_mode " <> quote c.redis_mode)
      else if (c.redis_mode == "sentinel") && (c.redis_master_name == "")
      then err "config: cluster.redis_master_name required for sentinel mode"
      else ok tt

  abbrev pub and_then : Result (Unit {0}) → Result (Unit {0}) → Result (Unit {0})
  and_then (ok _) next = next
  and_then (err why) next = err why

  unfoldable pub validate : Config → Result (Unit {0})
  unfolding check_mode check_tls check_auth check_cluster
  validate c =
      and_then (check_mode c)
        (and_then (check_tls c.tls) (and_then (check_auth c.auth) (check_cluster c.cluster)))
