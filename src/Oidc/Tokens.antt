-- ===== src/Oidc/Tokens.antt =====
-- Minting a token set (issueTokenSet of src/oidc/config.ts). A signed token is the signature
-- primitive's result on its payload; the refresh record goes through `persist`, whose failure is
-- the RefreshTokenReuseError that src/oidc/routes.ts throws and catches.
use absolute_auth.Prelude.{
  ℕ, String, Bool, true, Option, none, some, List, [], ◌+◌, ◌/◌, if◌then◌else◌,
}
use absolute_auth.JsMap.{set}
use absolute_auth.Json.{str, num, Claims, spread}
use absolute_auth.Oidc.Types.{RefreshToken}
use absolute_auth.Oidc.Provider.{Config, Primitives, Fresh, get_or, ms_per_second, ms_per_hour}
use absolute_auth.Oidc.Claims.{build_access_claims, resolve_access_ttl, now_seconds, join}
use absolute_auth.Oidc.Refresh
use absolute_auth.Oidc.Refresh.{rotate_token, save_token}

pub record IssueRequest : Type 0 where
  pub acr : Option String
  pub audience : Option String
  pub claims : Option Claims
  pub client_cert_thumbprint : Option String
  pub client_id : String
  pub dpop_jkt : Option String
  pub family_id : Option String
  pub nonce : Option String
  pub scopes : List String
  pub sub : String

pub record TokenSet : Type 0 where
  pub access_token : String
  pub expires_in : ℕ
  pub id_token : String
  pub refresh_token : String
  pub scope : String
  pub is_dpop : Bool

-- persistRefreshToken: the rotation of a presented hash, or by default a new family.
pub data Persist : Type 0 where
  save_new : Persist
  rotate : String → Persist

unfoldable pub persist_refresh : Persist → RefreshToken → Refresh.Store → Bool × Refresh.Store
unfolding rotate_token save_token
persist_refresh save_new token families = (true, save_token token families)
persist_refresh (rotate h) token families = rotate_token h token families

set_optional : String → Option String → Claims → Claims
set_optional k none claims = claims
set_optional k (some s) claims = set k (str s) claims

unfoldable pub id_claims : Config → ℕ → IssueRequest → Claims
unfolding set_optional now_seconds
id_claims cfg now req = set_optional "acr" req.acr (
    set_optional "nonce" req.nonce (
      set "sub" (str req.sub) (
        set "iss" (str cfg.issuer) (
          set "iat" (num (now_seconds now)) (
            set "exp" (num (now_seconds (now + get_or cfg.id_token_ttl_ms ms_per_hour)))
              (set "aud" (str req.client_id) (get_or req.claims [])))))))

unfoldable pub access_extra : Config → String → IssueRequest → Claims
unfolding set_optional spread
access_extra cfg family_id req = set_optional "acr" req.acr (elim cfg.get_access_token_claims [
  | none ↦ []
  | some hook ↦ hook (record {
    audience = req.audience;
    client_id = req.client_id;
    family_id = some family_id;
    scopes = req.scopes;
    sub = req.sub;
  })
])

unfoldable pub access_claims : Config → ℕ → Fresh → IssueRequest → Claims
unfolding access_extra build_access_claims resolve_access_ttl
access_claims cfg now fresh req =
    build_access_claims
      (record {
        act = none;
        audience = req.audience;
        client_cert_thumbprint = req.client_cert_thumbprint;
        client_id = req.client_id;
        dpop_jkt = req.dpop_jkt;
        issuer = cfg.issuer;
        jti = fresh.jti;
        now = now;
        scopes = req.scopes;
        sub = req.sub;
        ttl = resolve_access_ttl cfg.access_token_ttl_ms req.scopes;
      })
      (some (access_extra cfg (get_or req.family_id fresh.family_id) req))

abbrev pub thirty_days : ℕ
thirty_days = 2592000000

unfoldable pub refresh_record : Primitives → Config → ℕ → Fresh → IssueRequest → RefreshToken
refresh_record prim cfg now fresh req = record {
  acr = req.acr;
  audience = req.audience;
  claims = req.claims;
  client_id = req.client_id;
  created_at = now;
  dpop_jkt = req.dpop_jkt;
  expires_at = now + get_or cfg.refresh_token_ttl_ms thirty_days;
  family_id = get_or req.family_id fresh.family_id;
  scopes = req.scopes;
  token_hash = prim.hash_token fresh.refresh_token;
  user_id = req.sub;
}

abbrev is_some : Option String → Bool
is_some none = Bool.false
is_some (some s) = true

unfoldable pub token_set : Primitives → Config → ℕ → Fresh → IssueRequest → TokenSet
unfolding access_claims id_claims resolve_access_ttl join
token_set prim cfg now fresh req = record {
  access_token = prim.sign_jwt (access_claims cfg now fresh req);
  expires_in = resolve_access_ttl cfg.access_token_ttl_ms req.scopes / ms_per_second;
  id_token = prim.sign_jwt (id_claims cfg now req);
  refresh_token = fresh.refresh_token;
  scope = join req.scopes;
  is_dpop = is_some req.dpop_jkt;
}

unfoldable pub issue_token_set :
    Primitives
    → Config
    → ℕ
    → Fresh
    → IssueRequest
    → Persist
    → Refresh.Store
    → Option TokenSet × Refresh.Store
unfolding persist_refresh refresh_record token_set
issue_token_set prim cfg now fresh req persist families =
    let (persisted, families') =
      persist_refresh persist (refresh_record prim cfg now fresh req) families in
    (if persisted then some (token_set prim cfg now fresh req) else none, families')
