-- ===== src/Oidc/Tests/Data.antt =====
-- A small deployment: one client, one user, one refresh token.
use Prim.Native.String.{◌++◌}
use absolute_auth.Prelude.{String, false, Option, none, some, [], ◌∷◌}
use absolute_auth.JsMap.{JsMap}
use absolute_auth.Oidc.Types.{
  OauthClient, AuthorizationCode, RefreshToken, DeviceAuthorization, BackchannelAuthRequest,
  approved, pending,
}
use absolute_auth.Oidc.Provider.{Config, Primitives, Fresh, by_default}
use absolute_auth.Oidc.Stores.{Stores}
use absolute_auth.Oidc.Refresh
use absolute_auth.Oidc.Tokens.{IssueRequest, TokenSet, token_set, refresh_record}
use absolute_auth.Oidc.Grants.{refresh_request}

abbrev pub prim : Primitives
prim = record { hash_token = λ s. "h:" ++ s; sign_jwt = λ c. "jwt"; verify_dpop = λ proof. proof }

abbrev pub cfg : Config
cfg = record {
  access_token_ttl_ms = by_default;
  get_access_token_claims = none;
  id_token_ttl_ms = none;
  issuer = "https://op.example";
  refresh_token_ttl_ms = none;
  device_code_ttl_ms = none;
  device_poll_interval_seconds = none;
  backchannel_auth_ttl_ms = none;
  backchannel_poll_interval_seconds = none;
  strict_fapi = false;
}

abbrev pub client : OauthClient
client = record {
  backchannel_logout_uri = none;
  client_id = "app";
  grant_types = none;
  hashed_secret = some "h:secret";
  jwks = none;
  jwks_uri = none;
  name = "App";
  post_logout_redirect_uris = none;
  redirect_uris = "https://app.example/cb" ∷ [];
  require_pushed_authorization_requests = none;
  require_signed_request_object = none;
  scopes = "openid" ∷ [];
  tls_certificate_bound_thumbprints = none;
}

abbrev pub fresh : Fresh
fresh = record { refresh_token = "r2"; family_id = "f2"; jti = "j2" }

abbrev pub fresh' : Fresh
fresh' = record { refresh_token = "r3"; family_id = "f3"; jti = "j3" }

abbrev pub token : RefreshToken
token = record {
  acr = none;
  audience = none;
  claims = none;
  client_id = "app";
  created_at = 0;
  dpop_jkt = none;
  expires_at = 1000;
  family_id = "f1";
  scopes = "openid" ∷ [];
  token_hash = "h:r1";
  user_id = "alice";
}

abbrev pub replacement : RefreshToken
replacement = refresh_record prim cfg 60 fresh (refresh_request client none token)

abbrev pub families : Refresh.Store
families = ("f1", record { consumed = []; revoked = false; token = token }) ∷ []

abbrev pub presents : JsMap String
presents = ("refresh_token", "r1") ∷ []

abbrev pub issued : TokenSet
issued = token_set prim cfg 60 fresh (refresh_request client none token)

abbrev pub code : AuthorizationCode
code = record {
  acr = none;
  audience = none;
  claims = none;
  client_id = "app";
  code_challenge = "h:verifier";
  code_hash = "h:code";
  created_at = 0;
  dpop_jkt = none;
  expires_at = 1000;
  nonce = some "n";
  redirect_uri = "https://app.example/cb";
  scopes = "openid" ∷ [];
  user_id = "alice";
}

abbrev pub code_body : JsMap String
code_body =
    ("code", "code")
    ∷ ("code_verifier", "verifier")
    ∷ ("redirect_uri", "https://app.example/cb")
    ∷ []

abbrev pub device : DeviceAuthorization
device = record {
  audience = none;
  client_id = "app";
  created_at = 0;
  device_code_hash = "h:device";
  expires_at = 1000;
  interval_seconds = 5;
  scopes = "openid" ∷ [];
  status = pending;
  user_code = "ABCD";
  user_sub = none;
}

abbrev pub granted_device : DeviceAuthorization
granted_device = record device { status = approved; user_sub = some "alice" }

abbrev pub auth_request : BackchannelAuthRequest
auth_request = record {
  auth_req_id = "ciba";
  binding_message = none;
  client_id = "app";
  created_at = 0;
  expires_at = 100000;
  interval_seconds = 5;
  last_polled_at = none;
  scopes = "openid" ∷ [];
  status = pending;
  user_sub = some "alice";
}

abbrev pub granted_request : BackchannelAuthRequest
granted_request = record auth_request { status = approved }

abbrev pub stores : Stores
stores = record {
  codes = ("h:code", code) ∷ [];
  refresh = families;
  devices = some (("h:device", granted_device) ∷ []);
  backchannel = some (("ciba", granted_request) ∷ []);
}

-- The request that the code, the device code or the backchannel request makes.
abbrev pub issue_for : Option String → IssueRequest
issue_for nonce = record {
  acr = none;
  audience = none;
  claims = none;
  client_cert_thumbprint = none;
  client_id = "app";
  dpop_jkt = none;
  family_id = none;
  nonce = nonce;
  scopes = "openid" ∷ [];
  sub = "alice";
}
