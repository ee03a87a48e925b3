-- ===== src/Config/Serving.antt =====
-- How cmd/rlaas-server/main.go sets up the authentication of internal/server/auth.go from the settings.
use Prim.Native.Nat.{ℕ, ◌<◌}
use rlaas.Base.{
  String, Bool, true, false, ◌==◌, ◌≡◌, ◌↔◌, refl, arith, eq_iff, Bool-cases, inl, inr, bytes, ap,
  sym, ◌∙◌, if◌then◌else◌,
}
use mathlib.Core.Path.{subst}
use rlaas.Base.Time.{Time}
use rlaas.Base.Exec.{Result, ok, err}
use rlaas.Config.{
  AuthConfig, Config, validate, check_mode, check_tls, check_auth, check_auth_mode, check_cluster,
  and_then,
}
use rlaas.Auth.{
  AuthMode, api_key, jwt, other_mode, AuthMiddlewareConfig, AuthLibrary, AuthRequest, Claims,
  Verdict, next_handler, refuse, one_of, api_key_of, extract_bearer_token, validate_hs256_jwt,
  role_checked, by_mode, auth_middleware,
}

-- `server.AuthMode(cfg.Auth.Mode)`.
unfoldable pub mode_of : String → AuthMode
mode_of s = if s == "apikey" then api_key else if s == "jwt" then jwt else other_mode s

unfoldable pub auth_settings : AuthConfig → AuthMiddlewareConfig
unfolding mode_of one_of bytes
auth_settings a = record {
  enabled = a.enabled;
  mode = mode_of a.mode;
  api_keys = λ key. one_of key a.api_keys;
  jwt_secret = bytes a.jwt_secret;
  jwt_issuer = a.jwt_issuer;
  jwt_audience = a.jwt_audience;
  admin_role = a.admin_role;
  read_role = a.read_only_role;
  exempt_paths = a.exempt_paths;
}

abbrev pub not_configured : Verdict
not_configured = refuse 500 "{\"error\":\"auth not configured\"}"

third_ok :
    (quote : String → String) (a b x d : Result (Unit {0}))
    → and_then quote a (and_then quote b (and_then quote x d)) ≡ ok tt
    → x ≡ ok tt
third_ok quote (ok _) (ok _) (ok _) d h = refl
third_ok quote (err why) b x d h = absurd (grind (arith, h))
third_ok quote (ok _) (err why) x d h = absurd (grind (arith, h))
third_ok quote (ok _) (ok _) (err why) d h = absurd (grind (arith, h))

auth_validated :
    (quote : String → String) (c : Config)
    → validate quote c ≡ ok tt
    → check_auth quote c.auth ≡ ok tt
unfolding validate
auth_validated quote c h =
    third_ok quote (check_mode quote c) (check_tls quote c.tls) (check_auth quote c.auth)
      (check_cluster quote c.cluster) h

abbrev code_of : Verdict → ℕ
code_of next_handler = 200
code_of (refuse status text) = status

one_of_two :
    (b : Bool) (x y : Verdict)
    → code_of x < 500
    → code_of y < 500
    → code_of (if b then x else y) < 500
one_of_two true x y f g = f
one_of_two false x y f g = g

role_code :
    (lib : AuthLibrary) (cfg : AuthMiddlewareConfig) (r : AuthRequest) (x : Result Claims)
    → code_of (role_checked lib cfg r x) < 500
unfolding role_checked
role_code lib cfg r (err why) = omega arith
role_code lib cfg r (ok claims) =
    one_of_two _ (refuse 403 "{\"error\":\"forbidden\"}") next_handler (omega arith) (omega arith)

-- Of the modes that the check of the settings lets pass, by name.
checked_mode :
    (quote : String → String) (a : AuthConfig)
    → check_auth_mode quote a ≡ ok tt
    → (a.mode == "apikey") ≡ false
    → (a.mode == "jwt") ≡ false
    → a.mode ≡ "oidc"
unfolding check_auth_mode
checked_mode quote a h not_key not_jwt = elim (Bool-cases (a.mode == "oidc")) [
  | inl oidc ↦ (eq_iff a.mode "oidc").0 oidc
  | inr other ↦ ground (arith, h, not_key, not_jwt, other)
]

module _ (lib : AuthLibrary) (cfg : AuthMiddlewareConfig) (now : Time) (r : AuthRequest) where
  Below : AuthMode → Type 0
  Below m = code_of (by_mode lib m cfg now r) < 500

  key_code : Below api_key
  unfolding Below by_mode
  key_code =
      one_of_two (cfg.api_keys (api_key_of r)) next_handler
        (refuse 401 "{\"error\":\"unauthorized\"}") (omega arith) (omega arith)

  token_code : Below jwt
  unfolding Below by_mode
  token_code =
      let token = extract_bearer_token r in
      let checked =
        validate_hs256_jwt lib token cfg.jwt_secret cfg.jwt_issuer cfg.jwt_audience now in
      one_of_two (token == "") (refuse 401 "{\"error\":\"missing bearer token\"}")
        (role_checked lib cfg r checked) (omega arith) (role_code lib cfg r checked)

  refused_mode :
      (m : AuthMode) (s : String)
      → mode_of s ≡ m
      → Below m
      → by_mode lib (mode_of s) cfg now r ≡ not_configured
      → ⊥
  unfolding Below
  refused_mode m s is below h =
      omega
        (arith, ap code_of h, subst (λ x. code_of (by_mode lib x cfg now r) < 500) (sym is) below)

  mode_code :
      (s : String)
      → by_mode lib (mode_of s) cfg now r ≡ not_configured
      → ((s == "apikey") ≡ false) × ((s == "jwt") ≡ false)
  mode_code s h = elim (Bool-cases (s == "apikey")) [
    | inl key ↦ absurd (refused_mode api_key s (unfold mode_of in rw key refl) key_code h)
    | inr not_key ↦ elim (Bool-cases (s == "jwt")) [
      | inl token ↦
          absurd (refused_mode jwt s (unfold mode_of in rw not_key (rw token refl)) token_code h)
      | inr not_jwt ↦ (not_key, not_jwt)
    ]
  ]

-- With settings that pass the check and have authentication switched on, the server answers a request for a path
-- that is not exempt with the error that authentication is not configured exactly if the mode is "oidc".
pub oidc_not_configured :
    (lib : AuthLibrary) (quote : String → String) (c : Config) (now : Time) (r : AuthRequest)
    → validate quote c ≡ ok tt
    → c.auth.enabled ≡ true
    → one_of r.path c.auth.exempt_paths ≡ false
    → (auth_middleware lib (auth_settings c.auth) now r ≡ not_configured) ↔ (c.auth.mode ≡ "oidc")
unfolding auth_middleware check_auth auth_settings
oidc_not_configured lib quote c now r valid on closed =
    let cfg = auth_settings c.auth in
    let checked : check_auth_mode quote c.auth ≡ ok tt =
      ground (arith, auth_validated quote c valid, on) in
    let through : auth_middleware lib cfg now r ≡ by_mode lib (mode_of c.auth.mode) cfg now r =
      rw on (rw closed refl) in
    (
      λ h.
          let (not_key, not_jwt) = mode_code lib cfg now r c.auth.mode (sym through ∙ h) in
          checked_mode quote c.auth checked not_key not_jwt,
      λ oidc.
          through
          ∙ ap (λ s. by_mode lib (mode_of s) cfg now r) oidc
          ∙ (unfold mode_of by_mode in refl),
    )
