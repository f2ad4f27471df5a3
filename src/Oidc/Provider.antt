-- ===== src/Oidc/Provider.antt =====
-- What a request to the OpenID provider reads and does not change: its configuration
-- (OidcProviderConfig of src/oidc/config.ts) and the primitives of WebCrypto and Elysia that it calls.
use absolute_auth.Prelude.{ℕ, String, Bool, Option, none, some, List, ◌*◌}
use absolute_auth.Json.{Claims}

-- accessTokenTtlMs: a number, a function of the granted scopes, or absent.
pub data AccessTtl : Type 0 where
  by_default : AccessTtl
  fixed : ℕ → AccessTtl
  by_scopes : (List String → ℕ) → AccessTtl

pub record ClaimsContext : Type 0 where
  pub audience : Option String
  pub client_id : String
  pub family_id : Option String
  pub scopes : List String
  pub sub : String

-- The hooks are functions of their arguments: the code awaits their results and nothing else.
pub record Config : Type 0 where
  pub access_token_ttl_ms : AccessTtl
  pub get_access_token_claims : Option (ClaimsContext → Claims)
  pub id_token_ttl_ms : Option ℕ
  pub issuer : String
  pub refresh_token_ttl_ms : Option ℕ
  pub device_code_ttl_ms : Option ℕ
  pub device_poll_interval_seconds : Option ℕ
  pub backchannel_auth_ttl_ms : Option ℕ
  pub backchannel_poll_interval_seconds : Option ℕ
  pub strict_fapi : Bool

-- hashToken is SHA-256, sign_jwt an ES256 signature under the signing key, verify_dpop the JWK
-- thumbprint of a valid DPoP proof for the token endpoint.
pub record Primitives : Type 0 where
  pub hash_token : String → String
  pub sign_jwt : Claims → String
  pub verify_dpop : Option String → Option String

-- The random values that one issue of tokens draws.
pub record Fresh : Type 0 where
  pub refresh_token : String
  pub family_id : String
  pub jti : String

-- x ?? d
abbrev pub get_or {ℓ} : {A : Type ℓ} → Option A → A → A
get_or none d = d
get_or (some a) d = a

abbrev pub ms_per_second : ℕ
ms_per_second = 1000

abbrev pub ms_per_minute : ℕ
ms_per_minute = 60 * ms_per_second

abbrev pub ms_per_hour : ℕ
ms_per_hour = 60 * ms_per_minute

abbrev pub ms_per_day : ℕ
ms_per_day = 24 * ms_per_hour
