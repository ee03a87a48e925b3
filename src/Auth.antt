-- ===== src/Auth.antt =====
-- internal/server/auth.go: which requests get past the authentication. HMAC-SHA256, the base64 decoder and
-- `encoding/json` are parameters; log lines are left out.
pub mod Passed
use Prim.Native.Char.{code}
use Prim.Native.Nat.{ℕ}
use rlaas.Base.{
  String, List, [], ◌∷◌, Bool, true, false, Option, none, some, ◌&&◌, ◌||◌, not, ◌==◌, ◌<>◌, ◌=ℕ◌,
  codes, if◌then◌else◌,
}
use rlaas.Base.Int.{ltb_ℤ}
use rlaas.Base.Int64.{Int64}
use rlaas.Base.Time.{Time, unix}
use rlaas.Base.Trim.{after_prefix, cut_at}
use rlaas.Base.Exec.{Result, ok, err}
use rlaas.Model.{Float64}

pub data AuthMode : Type 0 where
  api_key jwt : AuthMode
  other_mode : String → AuthMode

pub record AuthMiddlewareConfig : Type 0 where
  pub enabled : Bool
  pub mode : AuthMode
  pub api_keys : String → Bool
  pub jwt_secret : List ℕ
  pub jwt_issuer : String
  pub jwt_audience : String
  pub admin_role : String
  pub read_role : String
  pub exempt_paths : List String

-- A decoded JSON value, as far as the code looks at it.
pub data Claim : Type 0 where
  text : String → Claim
  number : Float64 → Claim
  other_claim : Claim

abbrev pub Claims : Type 0
Claims = String → Option Claim

-- `to_int` is the conversion of a `float64` to an `int64`.
pub record AuthLibrary : Type 0 where
  pub hmac_sha256 : List ℕ → String → List ℕ
  pub decode_base64 : String → Option (List ℕ)
  pub decode_claims : List ℕ → Option Claims
  pub to_int : Float64 → Int64

pub record AuthRequest : Type 0 where
  pub method : String
  pub path : String
  pub header : String → String

-- The request goes on to the next handler, or is answered.
pub data Verdict : Type 0 where
  next_handler : Verdict
  refuse : ℕ → String → Verdict

unfoldable pub one_of : String → List String → Bool
one_of s [] = false
one_of s (x ∷ xs) = (x == s) || one_of s xs

-- `strings.TrimPrefix(s, "Bearer ")` where the prefix is there.
bearer : String → Option String
unfolding after_prefix
bearer s = after_prefix (codes "Bearer ") s

or_whole : String → Option String → String
or_whole s none = s
or_whole s (some rest) = rest

-- The key of `AuthModeAPIKey`.
unfoldable pub api_key_of : AuthRequest → String
unfolding bearer or_whole
api_key_of r =
    let key = r.header "X-Api-Key" in
    let authorization = r.header "Authorization" in
    if key == "" then or_whole authorization (bearer authorization) else key

unfoldable pub extract_bearer_token : AuthRequest → String
unfolding bearer or_whole
extract_bearer_token r = or_whole "" (bearer (r.header "Authorization"))

unfoldable pub is_mutating_method : String → Bool
is_mutating_method m = (m == "POST") || (m == "PUT") || (m == "PATCH") || (m == "DELETE")

-- `claims[name].(string)`, or the empty text.
unfoldable pub text_of : Option Claim → String
text_of (some (text s)) = s
text_of _ = ""

-- `strings.Split(token, ".")` if it has three parts.
third : String → String → Option (String × String) → Option (String × String × String)
unfolding cut_at
third a s none = none
third a s (some (b, c)) = elim (cut_at b'.' c) [ none ↦ some (a, b, c) | some more ↦ none ]

second_part : Option (String × String) → Option (String × String × String)
unfolding cut_at third
second_part none = none
second_part (some (a, rest)) = third a rest (cut_at b'.' rest)

unfoldable pub three_parts : String → Option (String × String × String)
unfolding cut_at second_part
three_parts token = second_part (cut_at b'.' token)

abbrev pub same_bytes : List ℕ → List ℕ → Bool
same_bytes [] [] = true
same_bytes (x ∷ xs) (y ∷ ys) = (x =ℕ y) && same_bytes xs ys
same_bytes _ _ = false

module _ (lib : AuthLibrary) where
  unfoldable pub is_expired : Time → Option Claim → Bool
  is_expired now (some (number exp)) = ltb_ℤ (lib.to_int exp) (unix now)
  is_expired now _ = false

  -- The checks behind the decoding of the claims.
  unfoldable pub check_claims : Time → String → String → Option Claims → Result Claims
  unfolding is_expired text_of
  check_claims now issuer audience none = err "invalid token"
  check_claims now issuer audience (some claims) =
      if is_expired now (claims "exp")
      then err "token expired"
      else if not (issuer == "") && not (text_of (claims "iss") == issuer)
      then err "invalid issuer"
      else if not (audience == "") && not (text_of (claims "aud") == audience)
      then err "invalid audience"
      else ok claims

  unfoldable pub claims_of : Option (List ℕ) → Option Claims
  claims_of none = none
  claims_of (some json) = lib.decode_claims json

  -- The check of the signature over the first two parts.
  unfoldable pub is_signed : List ℕ → String → String → Option (List ℕ) → Result (Unit {0})
  is_signed secret header payload none = err "invalid token"
  is_signed secret header payload (some signature) =
      if same_bytes signature (lib.hmac_sha256 secret (header <> "." <> payload))
      then ok tt
      else err "invalid signature"

  unfoldable pub signed_claims :
      Result (Unit {0}) → Time → String → String → Option Claims → Result Claims
  unfolding check_claims
  signed_claims (err why) now issuer audience claims = err why
  signed_claims (ok _) now issuer audience claims = check_claims now issuer audience claims

  unfoldable pub parts_checked :
      Option (String × String × String) → List ℕ → String → String → Time → Result Claims
  unfolding claims_of is_signed signed_claims
  parts_checked none secret issuer audience now = err "invalid token"
  parts_checked (some (header, payload, signature)) secret issuer audience now =
      signed_claims (is_signed secret header payload (lib.decode_base64 signature)) now issuer
        audience (claims_of (lib.decode_base64 payload))

  unfoldable pub validate_hs256_jwt : String → List ℕ → String → String → Time → Result Claims
  unfolding three_parts parts_checked
  validate_hs256_jwt token secret issuer audience now =
      parts_checked (three_parts token) secret issuer audience now

  unfoldable pub role_checked : AuthMiddlewareConfig → AuthRequest → Result Claims → Verdict
  unfolding text_of is_mutating_method
  role_checked cfg r (err why) = refuse 401 "{\"error\":\"unauthorized\"}"
  role_checked cfg r (ok claims) =
      if is_mutating_method r.method
        && (not (cfg.admin_role == "") && not (text_of (claims "role") == cfg.admin_role))
      then refuse 403 "{\"error\":\"forbidden\"}"
      else next_handler

  unfoldable pub by_mode : AuthMode → AuthMiddlewareConfig → Time → AuthRequest → Verdict
  unfolding api_key_of extract_bearer_token validate_hs256_jwt role_checked
  by_mode api_key cfg now r =
      if cfg.api_keys (api_key_of r)
      then next_handler
      else refuse 401 "{\"error\":\"unauthorized\"}"
  by_mode jwt cfg now r =
      let token = extract_bearer_token r in
      if token == ""
      then refuse 401 "{\"error\":\"missing bearer token\"}"
      else role_checked cfg r
          (validate_hs256_jwt token cfg.jwt_secret cfg.jwt_issuer cfg.jwt_audience now)
  by_mode (other_mode s) cfg now r = refuse 500 "{\"error\":\"auth not configured\"}"

  unfoldable pub auth_middleware : AuthMiddlewareConfig → Time → AuthRequest → Verdict
  unfolding one_of by_mode
  auth_middleware cfg now r =
      if not cfg.enabled
      then next_handler
      else if one_of r.path cfg.exempt_paths
      then next_handler
      else by_mode cfg.mode cfg now r
