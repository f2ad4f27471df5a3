-- ===== src/Oidc/Types.antt =====
-- The records that the OpenID provider's stores keep (src/oidc/types.ts). Times are milliseconds;
-- optional fields are `Option`.
use absolute_auth.Prelude.{ℕ, String, Bool, Option, List}
use absolute_auth.Json.{Claims}

-- A registered relying party. A JSON web key is an object of claims.
pub record OauthClient : Type 0 where
  pub backchannel_logout_uri : Option String
  pub client_id : String
  pub grant_types : Option (List String)
  pub hashed_secret : Option String
  pub jwks : Option (List Claims)
  pub jwks_uri : Option String
  pub name : String
  pub post_logout_redirect_uris : Option (List String)
  pub redirect_uris : List String
  pub require_pushed_authorization_requests : Option Bool
  pub require_signed_request_object : Option Bool
  pub scopes : List String
  pub tls_certificate_bound_thumbprints : Option (List String)

pub record AuthorizationCode : Type 0 where
  pub acr : Option String
  pub audience : Option String
  pub claims : Option Claims
  pub client_id : String
  pub code_challenge : String
  pub code_hash : String
  pub created_at : ℕ
  pub dpop_jkt : Option String
  pub expires_at : ℕ
  pub nonce : Option String
  pub redirect_uri : String
  pub scopes : List String
  pub user_id : String

pub record RefreshToken : Type 0 where
  pub acr : Option String
  pub audience : Option String
  pub claims : Option Claims
  pub client_id : String
  pub created_at : ℕ
  pub dpop_jkt : Option String
  pub expires_at : ℕ
  pub family_id : String
  pub scopes : List String
  pub token_hash : String
  pub user_id : String

pub record RefreshTokenFamily : Type 0 where
  pub audience : Option String
  pub client_id : String
  pub expires_at : ℕ
  pub family_id : String
  pub issued_at : ℕ
  pub scopes : List String
  pub user_id : String

pub record SocketTicket : Type 0 where
  pub audience : String
  pub client_id : String
  pub expires_at : ℕ
  pub scopes : List String
  pub subject : String
  pub ticket_hash : String

pub data Status : Type 0 where
  approved denied pending : Status

pub record DeviceAuthorization : Type 0 where
  pub audience : Option String
  pub client_id : String
  pub created_at : ℕ
  pub device_code_hash : String
  pub expires_at : ℕ
  pub interval_seconds : ℕ
  pub scopes : List String
  pub status : Status
  pub user_code : String
  pub user_sub : Option String

pub record BackchannelAuthRequest : Type 0 where
  pub auth_req_id : String
  pub binding_message : Option String
  pub client_id : String
  pub created_at : ℕ
  pub expires_at : ℕ
  pub interval_seconds : ℕ
  pub last_polled_at : Option ℕ
  pub scopes : List String
  pub status : Status
  pub user_sub : Option String

pub record PushedAuthorizationRequest : Type 0 where
  pub client_id : String
  pub created_at : ℕ
  pub expires_at : ℕ
  pub params : List (String × String)
  pub request_uri_hash : String

pub record ClientRegistrationToken : Type 0 where
  pub client_id : String
  pub created_at : ℕ
  pub token_hash : String
