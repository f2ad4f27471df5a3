-- ===== src/Oidc/Grants/Rotated.antt =====
-- The shape of a refresh_token grant that was answered with tokens.
use absolute_auth.Prelude.{
  ℕ, String, ◌≡◌, refl, ◌≤◌, false, Option, none, some, string_eq, arith, eq_iff, option_string_eq,
}
use absolute_auth.JsMap.{JsMap, get}
use absolute_auth.Oidc.Types.{OauthClient, RefreshToken}
use absolute_auth.Oidc.Provider.{Config, Primitives, Fresh}
use absolute_auth.Oidc.Refresh
use absolute_auth.Oidc.Refresh.{get_token, rotate_token, revoke_by_consumed_token}
use absolute_auth.Oidc.Tokens.{TokenSet, token_set, refresh_record}
use absolute_auth.Oidc.Grants.{
  token_response, grant_refresh_token, refresh_presented, refresh_checked, refresh_issue,
  refresh_request, wrong_target, binding_refused,
}

-- The token that a successful refresh rotates, and the store that it leaves.
pub record Rotated (prim : Primitives) (cfg : Config) (client : OauthClient) (now now' : ℕ)
    (fresh : Fresh) (dpop cert resource : Option String) (h : String) (families : Refresh.Store)
    (t : TokenSet) (families' : Refresh.Store) : Type 0 where
  pub token : RefreshToken
  pub held : get_token h families ≡ some token
  pub alive : now ≤ token.expires_at
  pub own : token.client_id ≡ client.client_id
  pub right_target : wrong_target resource token.audience ≡ false
  pub bound : binding_refused prim token.dpop_jkt dpop ≡ false
  pub issued : t ≡ token_set prim cfg now' fresh (refresh_request client cert token)
  pub left :
      families'
      ≡ (rotate_token h
          (refresh_record prim cfg now' fresh (refresh_request client cert token))
          families).1

module _ (prim : Primitives) (cfg : Config) (client : OauthClient) (now now' : ℕ) (fresh : Fresh)
    (dpop cert : Option String) where
  issue_shape :
      (h : String) (token : RefreshToken) (families families' : Refresh.Store) (t : TokenSet)
      → refresh_issue prim cfg client now' fresh h cert token families
        ≡ (token_response t, families')
      → (t ≡ token_set prim cfg now' fresh (refresh_request client cert token))
        × (families'
            ≡ (rotate_token h
                (refresh_record prim cfg now' fresh (refresh_request client cert token))
                families).1)
  unfolding refresh_issue
  issue_shape h token families families' t e = ground arith

  checked_guards :
      (h : String) (resource : Option String) (token : RefreshToken)
      (families families' : Refresh.Store) (t : TokenSet)
      → refresh_checked prim cfg client now now' fresh h resource dpop cert (some token) families
        ≡ (token_response t, families')
      → (now ≤ token.expires_at)
        × (token.client_id ≡ client.client_id)
        × (wrong_target resource token.audience ≡ false)
        × (binding_refused prim token.dpop_jkt dpop ≡ false)
        × (refresh_issue prim cfg client now' fresh h cert token families
            ≡ (token_response t, families'))
  unfolding refresh_checked
  checked_guards h resource token families families' t e =
      ground (arith, eq_iff token.client_id client.client_id)

  checked_shape :
      (h : String) (resource : Option String) (o : Option RefreshToken)
      (families families' : Refresh.Store) (t : TokenSet)
      → get_token h families ≡ o
      → refresh_checked prim cfg client now now' fresh h resource dpop cert o families
        ≡ (token_response t, families')
      → Rotated prim cfg client now now' fresh dpop cert resource h families t families'
  unfolding refresh_checked
  checked_shape h resource none families families' t o e = ground arith
  checked_shape h resource (some token) families families' t o e =
      let (alive, own, target, bound, rest) =
        checked_guards h resource token families families' t e in
      let (issued, left) = issue_shape h token families families' t rest in
      record {
        token = token;
        held = o;
        alive = alive;
        own = own;
        right_target = target;
        bound = bound;
        issued = issued;
        left = left;
      }

  presented_shape :
      (o : Option String) (body : JsMap String) (families families' : Refresh.Store) (t : TokenSet)
      → get "refresh_token" body ≡ o
      → refresh_presented prim cfg client now now' fresh o (get "resource" body) dpop cert families
        ≡ (token_response t, families')
      → (p : String) × (get "refresh_token" body ≡ some p)
        × Rotated prim cfg client now now' fresh dpop cert
            (get "resource" body)
            (prim.hash_token p)
            families
            t
            families'
  unfolding refresh_presented
  presented_shape none body families families' t o e = ground arith
  presented_shape (some p) body families families' t o e =
      (p, o, checked_shape (prim.hash_token p) (get "resource" body) _ families families' t refl e)

module _ (prim : Primitives) (cfg : Config) (client : OauthClient) (now now' : ℕ) (fresh : Fresh)
    (dpop cert : Option String) where
  pub known_shape :
      (body : JsMap String) (families families' : Refresh.Store) (t : TokenSet) (p : String)
      → get "refresh_token" body ≡ some p
      → grant_refresh_token prim cfg client now now' fresh body dpop cert families
        ≡ (token_response t, families')
      → Rotated prim cfg client now now' fresh dpop cert
          (get "resource" body)
          (prim.hash_token p)
          families
          t
          families'
  unfolding grant_refresh_token refresh_presented
  known_shape body families families' t p eb e =
      checked_shape prim cfg client now now' fresh dpop cert (prim.hash_token p)
        (get "resource" body) _ families families' t refl (rw eb at e)

  pub known_presented :
      (body : JsMap String) (families families' : Refresh.Store) (t : TokenSet)
      → grant_refresh_token prim cfg client now now' fresh body dpop cert families
        ≡ (token_response t, families')
      → (p : String) × (get "refresh_token" body ≡ some p)
        × Rotated prim cfg client now now' fresh dpop cert
            (get "resource" body)
            (prim.hash_token p)
            families
            t
            families'
  unfolding grant_refresh_token
  known_presented body families families' t e =
      presented_shape prim cfg client now now' fresh dpop cert _ body families families' t refl e
