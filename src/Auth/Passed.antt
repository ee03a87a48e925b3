-- ===== src/Auth/Passed.antt =====
-- Which requests get past the JSON web tokens of internal/server/auth.go.
use Prim.Native.Nat.{ℕ}
use rlaas.Base.Int.{◌≤ℤ◌}
use rlaas.Base.{
  String, List, [], ◌∷◌, true, false, Option, none, some, ◌≡◌, ◌≢◌, refl, ap, ◌==◌, ◌<>◌, ◌⊎◌, inl,
  inr, arith, eq_iff, Bool-cases,
}
use mathlib.Core.Path.{subst}
use rlaas.Base.Maps.{some_inj}
use rlaas.Base.Time.{Time, unix}
use rlaas.Base.Exec.{Result, ok, err}
use rlaas.Auth.{
  AuthMode, api_key, other_mode, jwt, AuthMiddlewareConfig, Claim, text, number, other_claim,
  Claims, AuthLibrary, AuthRequest, next_handler, one_of, extract_bearer_token, is_mutating_method,
  text_of, three_parts, same_bytes, is_expired, check_claims, claims_of, is_signed, signed_claims,
  parts_checked, validate_hs256_jwt, role_checked, by_mode, auth_middleware,
}

-- A claim of an expiry, if it is a number, is not before the present second.
abbrev pub InTime : AuthLibrary → Time → Option Claim → Type 0
InTime lib now (some (number expiry)) = unix now ≤ℤ lib.to_int expiry
InTime lib now _ = Unit {0}

-- The method is none of those that change state.
abbrev pub Reads : String → Type 0
Reads m = (m ≢ "POST") × (m ≢ "PUT") × (m ≢ "PATCH") × (m ≢ "DELETE")

-- The claims are within their time, and for the issuer and the audience that are asked for.
pub record IsCurrent (lib : AuthLibrary) (cfg : AuthMiddlewareConfig) (now : Time) (claims : Claims)
    : Type 0 where
  pub fresh : InTime lib now (claims "exp")
  pub issuer : (cfg.jwt_issuer ≡ "") ⊎ (text_of (claims "iss") ≡ cfg.jwt_issuer)
  pub audience : (cfg.jwt_audience ≡ "") ⊎ (text_of (claims "aud") ≡ cfg.jwt_audience)

-- The token has three parts: the third is the code of the first two under the secret, and the second encodes
-- current claims.
pub record IsGenuine (lib : AuthLibrary) (cfg : AuthMiddlewareConfig) (now : Time) (token : String)
    (claims : Claims) : Type 0 where
  pub header : String
  pub payload : String
  pub signature : String
  pub json : List ℕ
  pub parts : three_parts token ≡ some (header, payload, signature)
  pub signed :
      lib.decode_base64 signature ≡ some (lib.hmac_sha256 cfg.jwt_secret (header <> "." <> payload))
  pub encoded : lib.decode_base64 payload ≡ some json
  pub decoded : lib.decode_claims json ≡ some claims
  pub current : IsCurrent lib cfg now claims

same_bytes_eq : (xs ys : List ℕ) → same_bytes xs ys ≡ true → xs ≡ ys
same_bytes_eq [] [] h = refl
same_bytes_eq [] (y ∷ ys) h = absurd (grind (arith, h))
same_bytes_eq (x ∷ xs) [] h = absurd (grind (arith, h))
same_bytes_eq (x ∷ xs) (y ∷ ys) h = ground (arith, h, same_bytes_eq xs ys)

not_expired :
    (lib : AuthLibrary) (now : Time) (claim : Option Claim)
    → is_expired lib now claim ≡ false
    → InTime lib now claim
unfolding is_expired
not_expired lib now none h = tt
not_expired lib now (some (text s)) h = tt
not_expired lib now (some (number x)) h = ground (arith, h)
not_expired lib now (some other_claim) h = tt

not_mutating : (m : String) → is_mutating_method m ≡ false → Reads m
unfolding is_mutating_method
not_mutating m h = (
  ground (arith, h, eq_iff m "POST"),
  ground (arith, h, eq_iff m "PUT"),
  ground (arith, h, eq_iff m "PATCH"),
  ground (arith, h, eq_iff m "DELETE"),
)

module _ (lib : AuthLibrary) (cfg : AuthMiddlewareConfig) (now : Time) where
  claims_checked :
      (found : Option Claims) (claims : Claims)
      → check_claims lib now cfg.jwt_issuer cfg.jwt_audience found ≡ ok claims
      → (found ≡ some claims) × IsCurrent lib cfg now claims
  unfolding check_claims
  claims_checked none claims h = absurd (grind (arith, h))
  claims_checked (some c) claims h =
      let fresh : is_expired lib now (c "exp") ≡ false = ground (arith, h) in
      let issued : (cfg.jwt_issuer ≡ "") ⊎ (text_of (c "iss") ≡ cfg.jwt_issuer) =
        ground (arith, h, eq_iff cfg.jwt_issuer "", eq_iff (text_of (c "iss")) cfg.jwt_issuer) in
      let meant : (cfg.jwt_audience ≡ "") ⊎ (text_of (c "aud") ≡ cfg.jwt_audience) =
        ground
          (arith, h, eq_iff cfg.jwt_audience "", eq_iff (text_of (c "aud")) cfg.jwt_audience) in
      let same : some c ≡ some claims = ground (arith, h) in
      (
        same,
        subst (λ k. IsCurrent lib cfg now k) (some_inj same)
            (record {
              fresh = not_expired lib now (c "exp") fresh;
              issuer = issued;
              audience = meant;
            }),
      )

  signature_checked :
      (header payload : String) (signature : Option (List ℕ))
      → is_signed lib cfg.jwt_secret header payload signature ≡ ok tt
      → signature ≡ some (lib.hmac_sha256 cfg.jwt_secret (header <> "." <> payload))
  unfolding is_signed
  signature_checked header payload none h = absurd (grind (arith, h))
  signature_checked header payload (some s) h =
      elim (Bool-cases (same_bytes s (lib.hmac_sha256 cfg.jwt_secret (header <> "." <> payload)))) [
        | inl same ↦ ap some (same_bytes_eq s _ same)
        | inr other ↦ ground (arith, h, other)
      ]

  signed_first :
      (r : Result (Unit {0})) (found : Option Claims) (claims : Claims)
      → signed_claims lib r now cfg.jwt_issuer cfg.jwt_audience found ≡ ok claims
      → (r ≡ ok tt) × (check_claims lib now cfg.jwt_issuer cfg.jwt_audience found ≡ ok claims)
  unfolding signed_claims
  signed_first (err why) found claims h = absurd (grind (arith, h))
  signed_first (ok _) found claims h = (refl, h)

  claims_decoded :
      (o : Option (List ℕ)) (claims : Claims)
      → claims_of lib o ≡ some claims
      → (json : List ℕ) × (o ≡ some json) × (lib.decode_claims json ≡ some claims)
  unfolding claims_of
  claims_decoded none claims h = absurd (grind (arith, h))
  claims_decoded (some json) claims h = (json, refl, h)

  parts-IsGenuine :
      (token : String) (o : Option (String × String × String)) (claims : Claims)
      → three_parts token ≡ o
      → parts_checked lib o cfg.jwt_secret cfg.jwt_issuer cfg.jwt_audience now ≡ ok claims
      → IsGenuine lib cfg now token claims
  unfolding parts_checked
  parts-IsGenuine token none claims at h = absurd (grind (arith, h))
  parts-IsGenuine token (some (header, payload, signature)) claims at h =
      let (good, checked) = signed_first _ _ claims h in
      let (found, current) = claims_checked _ claims checked in
      let (json, encoded, decoded) = claims_decoded _ claims found in
      record {
        header = header;
        payload = payload;
        signature = signature;
        json = json;
        parts = at;
        signed = signature_checked header payload _ good;
        encoded = encoded;
        decoded = decoded;
        current = current;
      }

  -- What a request that gets past the role check has shown.
  HasRole : AuthRequest → Claims → Type 0
  HasRole r claims =
      Reads r.method ⊎ ((cfg.admin_role ≡ "") ⊎ (text_of (claims "role") ≡ cfg.admin_role))

  role_held :
      (r : AuthRequest) (x : Result Claims)
      → role_checked lib cfg r x ≡ next_handler
      → (claims : Claims) × (x ≡ ok claims) × HasRole r claims
  unfolding role_checked HasRole
  role_held r (err why) h = absurd (grind (arith, h))
  role_held r (ok claims) h = (
    claims,
    refl,
    ground (
      arith,
      h,
      eq_iff cfg.admin_role "",
      eq_iff (text_of (claims "role")) cfg.admin_role,
      not_mutating r.method,
    ),
  )

  past_mode :
      (mode : AuthMode) (r : AuthRequest)
      → mode ≡ jwt
      → by_mode lib mode cfg now r ≡ next_handler
      → (claims : Claims) × IsGenuine lib cfg now (extract_bearer_token r) claims × HasRole r claims
  unfolding by_mode validate_hs256_jwt
  past_mode api_key r e h = absurd (grind (arith, e))
  past_mode (other_mode s) r e h = absurd (grind (arith, e))
  past_mode jwt r e h = elim (Bool-cases (extract_bearer_token r == "")) [
    | inl blank ↦ ground (arith, h, blank)
    | inr token ↦
        let checked : role_checked lib cfg r (
              validate_hs256_jwt lib (extract_bearer_token r) cfg.jwt_secret cfg.jwt_issuer
                cfg.jwt_audience now)
            ≡ next_handler =
          ground (arith, h, token) in
        let (claims, valid, role) = role_held r _ checked in
        (claims, parts-IsGenuine (extract_bearer_token r) _ claims refl valid, role)
  ]

-- With authentication by token switched on, a request for a path that is not exempt gets to the next handler only
-- with a bearer token whose signature is the code of its first two parts under the secret, and whose claims are
-- current: an expiry that is a number is not before the present second, and the issuer and the audience are those of
-- the configuration, where it names any. One with the method POST, PUT, PATCH or DELETE gets there only if
-- the claims name the admin role, if one is configured.
pub jwt_guards :
    (lib : AuthLibrary) (cfg : AuthMiddlewareConfig) (now : Time) (r : AuthRequest)
    → cfg.enabled ≡ true
    → cfg.mode ≡ jwt
    → one_of r.path cfg.exempt_paths ≡ false
    → auth_middleware lib cfg now r ≡ next_handler
    → (claims : Claims) × IsGenuine lib cfg now (extract_bearer_token r) claims
      × (Reads r.method ⊎ ((cfg.admin_role ≡ "") ⊎ (text_of (claims "role") ≡ cfg.admin_role)))
unfolding auth_middleware HasRole
jwt_guards lib cfg now r on by_token closed h =
    past_mode lib cfg now cfg.mode r by_token (ground (arith, h, on, closed))
