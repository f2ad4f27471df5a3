-- ===== src/Oidc/Tests/Flows.antt =====
-- Runs of the device flow, the backchannel flow, the one-use stores and client authentication.
use absolute_auth.Prelude.{
  String, ◌≡◌, ◌≢◌, refl, true, Option, none, some, [], ◌∷◌, arith, eq_iff, includes,
}
use absolute_auth.JsMap.{get, has, set, delete_where}
use absolute_auth.Json.{Claims, str, num}
use absolute_auth.Oidc.Types.{
  OauthClient, PushedAuthorizationRequest, SocketTicket, ClientRegistrationToken,
}
use absolute_auth.Oidc.Stores.{Stores}
use absolute_auth.Oidc.Tokens.{token_set}
use absolute_auth.Oidc.Claims.{AccessContext, build_access_claims}
use absolute_auth.Oidc.Claims.Reserved.{reserved_claims_fixed}
use absolute_auth.Oidc.Device
use absolute_auth.Oidc.Device.Laws as DeviceLaws
use absolute_auth.Oidc.Device.Laws.{device_code_redeemed_once}
use absolute_auth.Oidc.Backchannel
use absolute_auth.Oidc.Backchannel.Laws as BackchannelLaws
use absolute_auth.Oidc.Backchannel.Laws.{auth_req_redeemed_once, fast_poll_slowed}
use absolute_auth.Oidc.Ledger.{JtiStore}
use absolute_auth.Oidc.Ledger.Laws.{Attempt, after_all}
use absolute_auth.Oidc.ClientAuth.{
  JwtPrimitives, Credentials, authenticate_token_client, verify_client_assertion, checked_claims,
}
use absolute_auth.Oidc.ClientAuth.Laws.{ProvedBy, token_client_sound}
use absolute_auth.Oidc.ClientAuth.Assertion.{assertion_accepted_once}
use absolute_auth.Oidc.Tests.Data.{
  prim, cfg, client, fresh, fresh', device, granted_device, auth_request, stores, issue_for,
}

device_redeemed : Device.exchange_device_code prim cfg 50 fresh "app" "device" none stores ≡ (
  Device.minted (token_set prim cfg 50 fresh (issue_for none)),
  (Device.exchange_device_code prim cfg 50 fresh "app" "device" none stores).1,
)
unfolding Device.exchange_device_code get
device_redeemed = refl

device_code_redeemed_once_example :
    DeviceLaws.Redeemable stores 50 "app" "h:device"
    × (Device.exchange_device_code prim cfg 90 fresh' "app" "device" none
          (Device.exchange_device_code prim cfg 50 fresh "app" "device" none stores).1
        ≡ (
          Device.invalid_grant,
          (Device.exchange_device_code prim cfg 50 fresh "app" "device" none stores).1,
        ))
device_code_redeemed_once_example =
    device_code_redeemed_once prim cfg 50 fresh "app" none 90 fresh' "app" none "device" stores
      (Device.exchange_device_code prim cfg 50 fresh "app" "device" none stores).1
      (token_set prim cfg 50 fresh (issue_for none)) device_redeemed

abbrev devices : Device.Store
devices = ("h:device", device) ∷ []

abbrev decided_devices : Device.Store
decided_devices = ("h:device", granted_device) ∷ []

auth_redeemed :
    Backchannel.exchange_backchannel_auth prim cfg 50 fresh "app" "ciba" none none stores ≡ (
      Backchannel.minted (token_set prim cfg 50 fresh (issue_for none)),
      (Backchannel.exchange_backchannel_auth prim cfg 50 fresh "app" "ciba" none none stores).1,
    )
unfolding Backchannel.exchange_backchannel_auth get
auth_redeemed = refl

auth_req_redeemed_once_example :
    BackchannelLaws.Redeemable stores 50 "app" "ciba"
    × (Backchannel.exchange_backchannel_auth prim cfg 90 fresh' "app" "ciba" none none
          (Backchannel.exchange_backchannel_auth prim cfg 50 fresh "app" "ciba" none none stores).1
        ≡ (
          Backchannel.invalid_grant,
          (Backchannel.exchange_backchannel_auth prim cfg 50 fresh "app" "ciba" none none stores).1,
        ))
auth_req_redeemed_once_example =
    auth_req_redeemed_once prim cfg 50 fresh "app" none none 90 fresh' "app" none none "ciba" stores
      (Backchannel.exchange_backchannel_auth prim cfg 50 fresh "app" "ciba" none none stores).1
      (token_set prim cfg 50 fresh (issue_for none)) auth_redeemed

abbrev waiting : Stores
waiting = record stores { backchannel = some (("ciba", auth_request) ∷ []) }

abbrev context : AccessContext
context = record {
  act = none;
  audience = none;
  client_cert_thumbprint = none;
  client_id = "app";
  dpop_jkt = some "jkt";
  issuer = "https://op.example";
  jti = "j";
  now = 5000;
  scopes = "openid" ∷ [];
  sub = "alice";
  ttl = 60000;
}

reserved_claims_fixed_example :
    get "sub" (build_access_claims context (some (("sub", str "root") ∷ ("tier", str "gold") ∷ [])))
    ≡ get "sub" (build_access_claims context none)
unfolding includes
reserved_claims_fixed_example =
    reserved_claims_fixed "sub" context (("sub", str "root") ∷ ("tier", str "gold") ∷ []) refl

abbrev first_use : Attempt
first_use = record { now = 10; client_id = "app"; jti = "j1"; expires_at = 100 }

abbrev other_use : Attempt
other_use = record { now = 20; client_id = "app"; jti = "j2"; expires_at = 90 }

abbrev replay : Attempt
replay = record { now = 30; client_id = "app"; jti = "j1"; expires_at = 400 }

abbrev pushed : PushedAuthorizationRequest
pushed = record {
  client_id = "app";
  created_at = 0;
  expires_at = 60;
  params = [];
  request_uri_hash = "h:uri";
}

abbrev ticket : SocketTicket
ticket = record {
  audience = "ws";
  client_id = "app";
  expires_at = 60;
  scopes = [];
  subject = "alice";
  ticket_hash = "h:ticket";
}

abbrev old_registration : ClientRegistrationToken
old_registration = record { client_id = "app"; created_at = 0; token_hash = "h:old" }

abbrev new_registration : ClientRegistrationToken
new_registration = record { client_id = "app"; created_at = 9; token_hash = "h:new" }

other_code : ◌≢◌ {A = String} "h:code" "h:elsewhere"
other_code = ground (arith, eq_iff "h:code" "h:elsewhere")

abbrev by_client_secret : Credentials
by_client_secret = record {
  assertion = none;
  assertion_type = none;
  client_id = some "app";
  client_secret = some "secret";
  cert_thumbprint = none;
}

abbrev assertion_claims : Claims
assertion_claims =
    ("iss", str "app")
    ∷ ("sub", str "app")
    ∷ ("aud", str "https://op.example/token")
    ∷ ("exp", num 60)
    ∷ ("jti", str "a1")
    ∷ []

abbrev jwt : JwtPrimitives
jwt = record {
  decode_payload = λ a. some assertion_claims;
  verify_jwt = λ a k. true;
  fetch_jwks_uri = λ uri. none;
}

abbrev signing_client : OauthClient
signing_client = record client { jwks = some ([] ∷ []) }

token_client_sound_example :
    (i : String) × (some "app" ≡ some i)
    × (some client ≡ some client)
    × (◌≡◌ {A = Option JtiStore} none none)
    × ProvedBy prim cfg by_client_secret client none
unfolding authenticate_token_client
token_client_sound_example =
    token_client_sound prim cfg jwt (λ i. some client) 0 0 "https://op.example/token"
      by_client_secret none none client none refl refl

assertion_accepted :
    verify_client_assertion jwt
      (λ i. some signing_client)
      50
      51
      "https://op.example/token"
      "a"
      (some [])
    ≡ (some signing_client, some (("app|a1", 60000) ∷ []))
unfolding verify_client_assertion get has set delete_where
assertion_accepted = refl

assertion_accepted_once_example :
    (verify_client_assertion jwt
      (λ i. some signing_client)
      80
      81
      "https://op.example/token"
      "a"
      (some (after_all (other_use ∷ []) (("app|a1", 60000) ∷ [])))).0
    ≡ none
unfolding checked_claims get
assertion_accepted_once_example =
    assertion_accepted_once jwt (λ i. some signing_client) 50 51 80 81 "https://op.example/token"
      "a" "app" assertion_claims 60000 (other_use ∷ []) [] (("app|a1", 60000) ∷ []) signing_client
      tt refl refl (omega arith, tt) (omega arith) assertion_accepted
