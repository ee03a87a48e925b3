-- ===== src/Tests/Settings.antt =====
-- Settings that pass the check, and the server that they make.
use rlaas.Base.{String, [], true, false, none, ◌≡◌, ◌↔◌, refl}
use rlaas.Base.Int.{pos}
use rlaas.Base.Exec.{ok}
use rlaas.Config.{Config, default_config, validate}
use rlaas.Config.Serving.{auth_settings, not_configured, oidc_not_configured}
use rlaas.Auth.{AuthLibrary, AuthRequest, one_of, auth_middleware}
use rlaas.Tests.Samples.{noon}

abbrev library : AuthLibrary
library = record {
  hmac_sha256 = λ secret s. [];
  decode_base64 = λ s. none;
  decode_claims = λ json. none;
  to_int = λ x. pos 0;
}

abbrev read_request : AuthRequest
read_request = record { method = "GET"; path = "/rlaas/v1/policies"; header = λ name. "" }

abbrev same : String → String
same s = s

oidc_config : Config
unfolding default_config
oidc_config = record default_config {
  auth = record default_config.auth {
    enabled = true;
    mode = "oidc";
    oidc_issuer_url = "https://issuer";
  };
}

valid : validate same oidc_config ≡ ok tt
unfolding oidc_config validate
valid = refl

closed : one_of read_request.path oidc_config.auth.exempt_paths ≡ false
unfolding oidc_config one_of
closed = refl

switched_on : oidc_config.auth.enabled ≡ true
unfolding oidc_config
switched_on = refl

oidc_not_configured_example :
    (auth_middleware library (auth_settings oidc_config.auth) noon read_request ≡ not_configured)
    ↔ (oidc_config.auth.mode ≡ "oidc")
oidc_not_configured_example =
    oidc_not_configured library same oidc_config noon read_request valid switched_on closed
