-- ===== src/Oidc/Grants.antt =====
-- The token endpoint's authorization_code and refresh_token grants (grantAuthorizationCode and
-- grantRefreshToken of src/oidc/routes.ts). Every refusal answers 400 with its OAuth error. The code
-- reads the clock once for the expiry test and once for the issue: two arguments.
pub mod Code
pub mod Replay
pub mod Rotated
pub mod Race
use absolute_auth.Prelude.{
  ℕ, String, Bool, true, false, not, ◌&&◌, ◌||◌, Option, none, some, ◌==◌, string_eq,
  option_string_eq, ltb, if◌then◌else◌,
}
use absolute_auth.JsMap.{JsMap, get}
use absolute_auth.Oidc.Types.{OauthClient, AuthorizationCode, RefreshToken}
use absolute_auth.Oidc.Provider.{Config, Primitives, Fresh}
use absolute_auth.Oidc.Codes
use absolute_auth.Oidc.Codes.{consume_code}
use absolute_auth.Oidc.Refresh
use absolute_auth.Oidc.Refresh.{get_token, revoke_by_consumed_token}
use absolute_auth.Oidc.Stores.{Stores}
use absolute_auth.Oidc.Tokens.{IssueRequest, TokenSet, save_new, rotate, issue_token_set}

pub data OauthError : Type 0 where
  invalid_request invalid_grant invalid_target invalid_dpop_proof : OauthError

pub data Response : Type 0 where
  oauth_error : OauthError → Response
  token_response : TokenSet → Response

-- verifyPkce
unfoldable pub verify_pkce : Primitives → String → String → Bool
verify_pkce prim code_verifier code_challenge = prim.hash_token code_verifier == code_challenge

-- body.resource !== undefined && body.resource !== record.audience
unfoldable pub wrong_target : Option String → Option String → Bool
wrong_target none audience = false
wrong_target (some r) audience = not (some r == audience)

-- A DPoP proof that was sent and does not verify.
unfoldable pub bad_proof : Option String → Option String → Bool
bad_proof none verified = false
bad_proof (some proof) none = true
bad_proof (some proof) (some jkt) = false

-- dpop === undefined ? undefined : verifyDpopProof(…)
unfoldable pub proof_key : Primitives → Option String → Option String
proof_key prim none = none
proof_key prim (some proof) = prim.verify_dpop (some proof)

respond : Option TokenSet → Response
respond none = oauth_error invalid_grant
respond (some t) = token_response t

-- The fields that a rotation takes from the presented token.
unfoldable pub refresh_request : OauthClient → Option String → RefreshToken → IssueRequest
refresh_request client cert token = record {
  acr = token.acr;
  audience = token.audience;
  claims = token.claims;
  client_cert_thumbprint = cert;
  client_id = client.client_id;
  dpop_jkt = token.dpop_jkt;
  family_id = some token.family_id;
  nonce = none;
  scopes = token.scopes;
  sub = token.user_id;
}

-- record.dpopJkt !== undefined and the proof is missing, invalid or of another key.
unfoldable pub binding_refused : Primitives → Option String → Option String → Bool
binding_refused prim none proof = false
binding_refused prim (some jkt) proof = not (prim.verify_dpop proof == some jkt)

module _ (prim : Primitives) (cfg : Config) (client : OauthClient) where
  -- What the grant asks of the consumed record.
  unfoldable pub code_refused : ℕ → String → String → AuthorizationCode → Bool
  unfolding verify_pkce
  code_refused now code_verifier redirect_uri code =
      ltb code.expires_at now
      || (not (code.client_id == client.client_id)
          || (not (code.redirect_uri == redirect_uri)
              || not (verify_pkce prim code_verifier code.code_challenge)))

  code_issue :
      ℕ
      → Fresh
      → Option String
      → Option String
      → AuthorizationCode
      → Refresh.Store
      → Response × Refresh.Store
  unfolding issue_token_set respond
  code_issue now fresh jkt cert code families =
      let (tokens, families') =
        issue_token_set prim cfg now fresh
          (record {
            acr = code.acr;
            audience = code.audience;
            claims = code.claims;
            client_cert_thumbprint = cert;
            client_id = client.client_id;
            dpop_jkt = jkt;
            family_id = none;
            nonce = code.nonce;
            scopes = code.scopes;
            sub = code.user_id;
          })
          save_new families in
      (respond tokens, families')

  code_checked :
      ℕ
      → ℕ
      → Fresh
      → (code_verifier redirect_uri : String) → (resource dpop cert : Option String)
      → Option AuthorizationCode
      → Refresh.Store
      → Response × Refresh.Store
  unfolding code_refused wrong_target bad_proof proof_key code_issue
  code_checked now now' fresh verifier redirect resource dpop cert none families =
      (oauth_error invalid_grant, families)
  code_checked now now' fresh verifier redirect resource dpop cert (some code) families =
      if code_refused now verifier redirect code
      then (oauth_error invalid_grant, families)
      else if wrong_target resource code.audience
      then (oauth_error invalid_target, families)
      else if bad_proof dpop (proof_key prim dpop)
      then (oauth_error invalid_dpop_proof, families)
      else code_issue now' fresh (proof_key prim dpop) cert code families

  code_presented :
      ℕ
      → ℕ
      → Fresh
      → (code verifier redirect : Option String) → (resource dpop cert : Option String) → Stores
      → Response × Stores
  unfolding code_checked consume_code
  code_presented now now' fresh none verifier redirect resource dpop cert s =
      (oauth_error invalid_request, s)
  code_presented now now' fresh (some code) none redirect resource dpop cert s =
      (oauth_error invalid_request, s)
  code_presented now now' fresh (some code) (some verifier) none resource dpop cert s =
      (oauth_error invalid_request, s)
  code_presented now now' fresh (some code) (some verifier) (some redirect) resource dpop cert s =
      let (found, codes') = consume_code (prim.hash_token code) s.codes in
      let (response, refresh') =
        code_checked now now' fresh verifier redirect resource dpop cert found s.refresh in
      (response, record s { codes = codes'; refresh = refresh' })

  unfoldable pub grant_authorization_code :
      ℕ → ℕ → Fresh → JsMap String → (dpop cert : Option String) → Stores → Response × Stores
  unfolding code_presented
  grant_authorization_code now now' fresh body dpop cert s =
      code_presented now now' fresh (get "code" body) (get "code_verifier" body)
        (get "redirect_uri" body) (get "resource" body) dpop cert s

  unfoldable pub refresh_issue :
      ℕ → Fresh → String → Option String → RefreshToken → Refresh.Store → Response × Refresh.Store
  unfolding issue_token_set respond refresh_request
  refresh_issue now fresh presented_hash cert token families =
      let (tokens, families') =
        issue_token_set prim cfg now fresh (refresh_request client cert token)
          (rotate presented_hash) families in
      (respond tokens, families')

  unfoldable pub refresh_checked :
      ℕ
      → ℕ
      → Fresh
      → String
      → (resource dpop cert : Option String) → Option RefreshToken
      → Refresh.Store
      → Response × Refresh.Store
  unfolding wrong_target binding_refused refresh_issue revoke_by_consumed_token
  refresh_checked now now' fresh h resource dpop cert none families =
      (oauth_error invalid_grant, (revoke_by_consumed_token h families).1)
  refresh_checked now now' fresh h resource dpop cert (some token) families =
      if ltb token.expires_at now || not (token.client_id == client.client_id)
      then (oauth_error invalid_grant, families)
      else if wrong_target resource token.audience
      then (oauth_error invalid_target, families)
      else if binding_refused prim token.dpop_jkt dpop
      then (oauth_error invalid_dpop_proof, families)
      else refresh_issue now' fresh h cert token families

  refresh_presented :
      ℕ
      → ℕ
      → Fresh
      → Option String
      → (resource dpop cert : Option String) → Refresh.Store
      → Response × Refresh.Store
  unfolding refresh_checked get_token
  refresh_presented now now' fresh none resource dpop cert families =
      (oauth_error invalid_request, families)
  refresh_presented now now' fresh (some presented) resource dpop cert families =
      refresh_checked now now' fresh (prim.hash_token presented) resource dpop cert
        (get_token (prim.hash_token presented) families) families

  unfoldable pub grant_refresh_token :
      ℕ
      → ℕ
      → Fresh
      → JsMap String
      → (dpop cert : Option String) → Refresh.Store
      → Response × Refresh.Store
  unfolding refresh_presented
  grant_refresh_token now now' fresh body dpop cert families =
      refresh_presented now now' fresh (get "refresh_token" body) (get "resource" body) dpop cert
        families
