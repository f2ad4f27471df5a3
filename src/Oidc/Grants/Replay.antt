-- ===== src/Oidc/Grants/Replay.antt =====
-- What the refresh_token grant guarantees, and what a replayed refresh token does.
use absolute_auth.Prelude.{
  ℕ, ◌+◌, String, ◌≡◌, refl, sym, subst, ap, ◌∙◌, option_beq_iff, ◌≤◌, false, Option, none, some,
  string_eq, arith, option_string_eq,
}
use absolute_auth.JsMap.{JsMap, get}
use absolute_auth.JsMap.Update.{Nowhere}
use absolute_auth.Oidc.Types.{OauthClient, RefreshToken}
use absolute_auth.Oidc.Provider.{Config, Primitives, Fresh, get_or}
use absolute_auth.Oidc.Refresh
use absolute_auth.Oidc.Refresh.{get_token, rotate_token, revoke_by_consumed_token}
use absolute_auth.Oidc.Refresh.Validity.{owns, IsValid}
use absolute_auth.Oidc.Refresh.Reuse.{get_token-rotate_token, reuse_revokes_replacement}
use absolute_auth.Oidc.Tokens.{IssueRequest, TokenSet, token_set, refresh_record}
use absolute_auth.Oidc.Grants.{
  oauth_error, token_response, invalid_grant, grant_refresh_token, refresh_presented,
  refresh_checked, refresh_request, wrong_target, binding_refused,
}
use absolute_auth.Oidc.Grants.Rotated.{Rotated, known_shape, known_presented}

module _ (prim : Primitives) (cfg : Config) (client : OauthClient) (now now' : ℕ) (fresh : Fresh)
    (dpop cert : Option String) where
  -- A refresh token that the store does not return is refused, and reported as reused.
  dead_refused :
      (body : JsMap String) (families : Refresh.Store) (p : String)
      → get "refresh_token" body ≡ some p
      → get_token (prim.hash_token p) families ≡ none
      → grant_refresh_token prim cfg client now now' fresh body dpop cert families
        ≡ (oauth_error invalid_grant, (revoke_by_consumed_token (prim.hash_token p) families).1)
  unfolding grant_refresh_token refresh_presented refresh_checked
  dead_refused body families p eb e = rw (eb, e)

module _ (prim : Primitives) (cfg : Config) (client : OauthClient) (now now' : ℕ) (fresh : Fresh)
    (dpop cert : Option String) where
  -- The store after a rotation, and after the report of its reuse.
  replayed :
      (resource : Option String) (h : String) (families families' : Refresh.Store) (t : TokenSet)
      → Rotated prim cfg client now now' fresh dpop cert resource h families t families'
      → IsValid families
      → Nowhere (owns (prim.hash_token fresh.refresh_token)) families
      → (get_token h families' ≡ none)
        × (get_token (prim.hash_token t.refresh_token) (revoke_by_consumed_token h families').1
            ≡ none)
        × (get_token h (revoke_by_consumed_token h families').1 ≡ none)
  unfolding refresh_record token_set
  replayed resource h families families' t rot valid new =
      let r = refresh_record prim cfg now' fresh (refresh_request client cert rot.token) in
      let (_, _, gone) = get_token-rotate_token h rot.token r families valid new rot.held in
      let (_, revoked, dead) =
        reuse_revokes_replacement h rot.token r families valid new rot.held in
      rw (rot.left, rot.issued) (gone, revoked, dead)

-- Replay of a refresh token: from a valid store, after a refresh that was answered with tokens, any
-- request with the same refresh token, by any client at any time, is refused with invalid_grant, and
-- leaves a store in which neither the replayed token nor the one issued in its place is active.
-- The new token's hash is assumed to be new to the store.
pub replay_kills_family :
    (prim : Primitives) (cfg : Config) (client client' : OauthClient) (now now' u u' : ℕ)
    (fresh fresh' : Fresh) (dpop cert dpop' cert' : Option String) (body body' : JsMap String)
    (families families' : Refresh.Store) (p : String) (t : TokenSet)
    → IsValid families
    → Nowhere (owns (prim.hash_token fresh.refresh_token)) families
    → get "refresh_token" body ≡ some p
    → get "refresh_token" body' ≡ some p
    → grant_refresh_token prim cfg client now now' fresh body dpop cert families
      ≡ (token_response t, families')
    → ((grant_refresh_token prim cfg client' u u' fresh' body' dpop' cert' families').0
        ≡ oauth_error invalid_grant)
      × (get_token
            (prim.hash_token t.refresh_token)
            (grant_refresh_token prim cfg client' u u' fresh' body' dpop' cert' families').1
          ≡ none)
      × (get_token
            (prim.hash_token p)
            (grant_refresh_token prim cfg client' u u' fresh' body' dpop' cert' families').1
          ≡ none)
replay_kills_family prim cfg client client' now now' u u' fresh fresh' dpop cert dpop' cert' body
      body' families families' p t valid new eb eb' e =
    let rot =
      known_shape prim cfg client now now' fresh dpop cert body families families' t p eb e in
    let (refused, revoked, gone) =
      replayed prim cfg client now now' fresh dpop cert (get "resource" body) (prim.hash_token p)
        families families' t rot valid new in
    rw (dead_refused prim cfg client' u u' fresh' dpop' cert' body' families' p eb' refused)
      (refl, revoked, gone)

-- What a refresh issues for a token: all that the token says, and the certificate of the request.
abbrev pub same_grant : Option String → RefreshToken → IssueRequest
same_grant cert token = record {
  acr = token.acr;
  audience = token.audience;
  claims = token.claims;
  client_cert_thumbprint = cert;
  client_id = token.client_id;
  dpop_jkt = token.dpop_jkt;
  family_id = some token.family_id;
  nonce = none;
  scopes = token.scopes;
  sub = token.user_id;
}

-- The token that takes its place.
abbrev pub successor : Primitives → Config → ℕ → RefreshToken → String → RefreshToken
successor prim cfg now' token text = record {
  acr = token.acr;
  audience = token.audience;
  claims = token.claims;
  client_id = token.client_id;
  created_at = now';
  dpop_jkt = token.dpop_jkt;
  expires_at = now' + get_or cfg.refresh_token_ttl_ms 2592000000;
  family_id = token.family_id;
  scopes = token.scopes;
  token_hash = prim.hash_token text;
  user_id = token.user_id;
}

-- A refresh that was answered with tokens: the token that was presented, what it was checked for,
-- what the answer was made from, and what the store returns after it.
pub record Refreshed (prim : Primitives) (cfg : Config) (client : OauthClient) (now now' : ℕ)
    (fresh : Fresh) (dpop cert resource : Option String) (p : String) (families : Refresh.Store)
    (t : TokenSet) (families' : Refresh.Store) : Type 0 where
  pub token : RefreshToken
  pub held : get_token (prim.hash_token p) families ≡ some token
  pub alive : now ≤ token.expires_at
  pub own : token.client_id ≡ client.client_id
  pub right_target : (r : String) → resource ≡ some r → token.audience ≡ some r
  pub bound : (jkt : String) → token.dpop_jkt ≡ some jkt → prim.verify_dpop dpop ≡ some jkt
  pub answered : t ≡ token_set prim cfg now' fresh (same_grant cert token)
  pub gone : get_token (prim.hash_token p) families' ≡ none
  pub renewed :
      get_token (prim.hash_token t.refresh_token) families'
      ≡ some (successor prim cfg now' token t.refresh_token)

target_of :
    (resource audience : Option String)
    → wrong_target resource audience ≡ false
    → (r : String) → resource ≡ some r
    → audience ≡ some r
unfolding wrong_target
target_of none audience h r e = absurd (ground (arith, e))
target_of (some s) audience h r e =
    let same : some s ≡ audience = (option_beq_iff (some s) audience).0 (ground (arith, h)) in
    sym same ∙ e

bound_to :
    (prim : Primitives) (stored dpop : Option String)
    → binding_refused prim stored dpop ≡ false
    → (jkt : String) → stored ≡ some jkt
    → prim.verify_dpop dpop ≡ some jkt
unfolding binding_refused
bound_to prim none dpop h jkt e = absurd (ground (arith, e))
bound_to prim (some k) dpop h jkt e =
    (option_beq_iff (prim.verify_dpop dpop) (some k)).0 (ground (arith, h)) ∙ e

same_grant_lem :
    (client : OauthClient) (cert : Option String) (token : RefreshToken)
    → token.client_id ≡ client.client_id
    → refresh_request client cert token ≡ same_grant cert token
unfolding refresh_request
same_grant_lem client cert token own =
    ap (λ c. record (same_grant cert token) { client_id = c }) (sym own)

Rotated-Refreshed :
    (prim : Primitives) (cfg : Config) (client : OauthClient) (now now' : ℕ) (fresh : Fresh)
    (dpop cert resource : Option String) (p : String) (families families' : Refresh.Store)
    (t : TokenSet)
    → IsValid families
    → Nowhere (owns (prim.hash_token fresh.refresh_token)) families
    → Rotated prim cfg client now now' fresh dpop cert resource
        (prim.hash_token p)
        families
        t
        families'
    → Refreshed prim cfg client now now' fresh dpop cert resource p families t families'
unfolding refresh_record token_set
Rotated-Refreshed prim cfg client now now' fresh dpop cert resource p families families' t valid new
      rot =
    let h = prim.hash_token p in
    let same = same_grant_lem client cert rot.token rot.own in
    let r = refresh_record prim cfg now' fresh (refresh_request client cert rot.token) in
    let (_, renewed, gone) = get_token-rotate_token h rot.token r families valid new rot.held in
    let text : t.refresh_token ≡ fresh.refresh_token = ap (λ s. s.refresh_token) rot.issued in
    let next : get_token (prim.hash_token fresh.refresh_token) families'
        ≡ some (successor prim cfg now' rot.token fresh.refresh_token) =
      subst (λ s. get_token (prim.hash_token fresh.refresh_token) s ≡ some r) (sym rot.left) renewed
      ∙ ap (λ q. some (refresh_record prim cfg now' fresh q)) same in
    record {
      token = rot.token;
      held = rot.held;
      alive = rot.alive;
      own = rot.own;
      right_target = target_of resource rot.token.audience rot.right_target;
      bound = bound_to prim rot.token.dpop_jkt dpop rot.bound;
      answered = rot.issued ∙ ap (token_set prim cfg now' fresh) same;
      gone = subst (λ s. get_token h s ≡ none) (sym rot.left) gone;
      renewed =
          subst
            (λ z.
              get_token (prim.hash_token z) families' ≡ some (successor prim cfg now' rot.token z))
            (sym text) next;
    }

-- A refresh answers with tokens only where the store returns a token for the presented one's hash
-- that has not expired, is the client's own, has the named resource as its audience, if one is
-- named, and whose DPoP key, if it has one, is that of the verified proof. The answer is made for
-- that token's client, user, scopes, audience and claims. After it the presented token is not
-- returned, and the new one is, with all of these and the family of the presented one, and with a
-- new time to live. The store is assumed to be valid, and the new token's hash to be new to it.
pub refresh_grant_sound :
    (prim : Primitives) (cfg : Config) (client : OauthClient) (now now' : ℕ) (fresh : Fresh)
    (dpop cert : Option String) (body : JsMap String) (families families' : Refresh.Store)
    (t : TokenSet)
    → IsValid families
    → Nowhere (owns (prim.hash_token fresh.refresh_token)) families
    → grant_refresh_token prim cfg client now now' fresh body dpop cert families
      ≡ (token_response t, families')
    → (p : String) × (get "refresh_token" body ≡ some p)
      × Refreshed prim cfg client now now' fresh dpop cert
          (get "resource" body)
          p
          families
          t
          families'
refresh_grant_sound prim cfg client now now' fresh dpop cert body families families' t valid new e =
    let (p, presented, rot) =
      known_presented prim cfg client now now' fresh dpop cert body families families' t e in
    (
      p,
      presented,
      Rotated-Refreshed prim cfg client now now' fresh dpop cert (get "resource" body) p families
          families' t valid new rot,
    )
