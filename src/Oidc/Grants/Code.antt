-- ===== src/Oidc/Grants/Code.antt =====
-- What the authorization_code grant guarantees: tokens only for a stored, unexpired code of the
-- client, with the redirect URI and the PKCE verifier that it was issued for; and one use.
use absolute_auth.Prelude.{
  ℕ, String, ◌≡◌, refl, ◌≤◌, false, Option, none, some, string_eq, arith, eq_iff, option_string_eq,
  Option-cases, inl, inr,
}
use absolute_auth.JsMap.{JsMap, get, delete}
use absolute_auth.JsMap.Laws.{get-delete}
use absolute_auth.Oidc.Types.{OauthClient, AuthorizationCode}
use absolute_auth.Oidc.Provider.{Config, Primitives, Fresh}
use absolute_auth.Oidc.Codes.{consume_code}
use absolute_auth.Oidc.Refresh
use absolute_auth.Oidc.Stores.{Stores}
use absolute_auth.Oidc.Tokens.{TokenSet}
use absolute_auth.Oidc.Grants.{
  oauth_error, token_response, invalid_grant, grant_authorization_code, code_presented,
  code_checked, code_refused, wrong_target,
}

-- The code that a successful exchange redeems.
pub record Redeemed (prim : Primitives) (client : OauthClient) (now : ℕ) (body : JsMap String)
    (s : Stores) : Type 0 where
  pub presented : String
  pub verifier : String
  pub code : AuthorizationCode
  pub code_given : get "code" body ≡ some presented
  pub verifier_given : get "code_verifier" body ≡ some verifier
  pub stored : get (prim.hash_token presented) s.codes ≡ some code
  pub alive : now ≤ code.expires_at
  pub own : code.client_id ≡ client.client_id
  pub same_redirect : get "redirect_uri" body ≡ some code.redirect_uri
  pub pkce : prim.hash_token verifier ≡ code.code_challenge
  pub right_target : wrong_target (get "resource" body) code.audience ≡ false

module _ (prim : Primitives) (cfg : Config) (client : OauthClient) (now now' : ℕ) (fresh : Fresh)
    (dpop cert : Option String) where
  checked_passes :
      (verifier redirect : String) (resource : Option String) (code : AuthorizationCode)
      (families : Refresh.Store) (t : TokenSet)
      → (code_checked prim cfg client now now' fresh verifier redirect resource dpop cert
          (some code)
          families).0
        ≡ token_response t
      → (now ≤ code.expires_at)
        × (code.client_id ≡ client.client_id)
        × (code.redirect_uri ≡ redirect)
        × (prim.hash_token verifier ≡ code.code_challenge)
        × (wrong_target resource code.audience ≡ false)
  unfolding code_checked code_refused
  checked_passes verifier redirect resource code families t e = ground (
    arith,
    eq_iff code.client_id client.client_id,
    eq_iff code.redirect_uri redirect,
    eq_iff (prim.hash_token verifier) code.code_challenge,
  )

  presented_passes :
      (c v r : Option String) (body : JsMap String) (s : Stores) (t : TokenSet)
      → get "code" body ≡ c
      → get "code_verifier" body ≡ v
      → get "redirect_uri" body ≡ r
      → (code_presented prim cfg client now now' fresh c v r (get "resource" body) dpop cert s).0
        ≡ token_response t
      → Redeemed prim client now body s
  unfolding code_presented consume_code
  presented_passes none v r body s t ec ev er e = ground arith
  presented_passes (some c) none r body s t ec ev er e = ground arith
  presented_passes (some c) (some v) none body s t ec ev er e = ground arith
  presented_passes (some c) (some v) (some r) body s t ec ev er e =
      elim (Option-cases (get (prim.hash_token c) s.codes)) [
        | inl absent ↦ cc (rw absent at e)
        | inr (code, held) ↦
            let (alive, own, same, pkce, right) =
              checked_passes v r (get "resource" body) code s.refresh t (rw held at e) in
            record {
              presented = c;
              verifier = v;
              code = code;
              code_given = ec;
              verifier_given = ev;
              stored = held;
              alive = alive;
              own = own;
              same_redirect = cc;
              pkce = pkce;
              right_target = right;
            }
      ]

  -- Tokens are issued only for a code that the store holds under the presented code's hash, not
  -- expired, issued to the authenticated client, for the redirect URI of the request, with a
  -- challenge that the request's verifier hashes to, and for the resource of the request if one is
  -- named.
  pub code_grant_sound :
      (body : JsMap String) (s : Stores) (t : TokenSet)
      → (grant_authorization_code prim cfg client now now' fresh body dpop cert s).0
        ≡ token_response t
      → Redeemed prim client now body s
  unfolding grant_authorization_code
  code_grant_sound body s t e = presented_passes _ _ _ body s t refl refl refl e

module _ (prim : Primitives) (cfg : Config) (client : OauthClient) (now now' : ℕ) (fresh : Fresh)
    (dpop cert : Option String) (body : JsMap String) (c v r : String) (s : Stores) where
  burnt :
      get "code" body ≡ some c
      → get "code_verifier" body ≡ some v
      → get "redirect_uri" body ≡ some r
      → (grant_authorization_code prim cfg client now now' fresh body dpop cert s).1.codes
        ≡ delete (prim.hash_token c) s.codes
  unfolding grant_authorization_code code_presented consume_code
  burnt ec ev er = rw (ec, ev, er, code_presented)

  unknown_refused :
      get "code" body ≡ some c
      → get "code_verifier" body ≡ some v
      → get "redirect_uri" body ≡ some r
      → get (prim.hash_token c) s.codes ≡ none
      → (grant_authorization_code prim cfg client now now' fresh body dpop cert s).0
        ≡ oauth_error invalid_grant
  unfolding grant_authorization_code code_presented consume_code code_checked
  unknown_refused ec ev er e = rw (ec, ev, er, e)

-- A code is good for one complete request: after a request with the code, a verifier and a redirect
-- URI, whatever it was answered, a complete request with the same code is refused with
-- invalid_grant, by whichever client, at whatever time and with whatever verifier it is made.
pub code_is_single_use :
    (prim : Primitives) (cfg : Config) (client client' : OauthClient) (t t' u u' : ℕ)
    (fresh fresh' : Fresh) (dpop dpop' cert cert' : Option String) (body body' : JsMap String)
    (c v v' r r' : String) (s : Stores)
    → get "code" body ≡ some c
    → get "code_verifier" body ≡ some v
    → get "redirect_uri" body ≡ some r
    → get "code" body' ≡ some c
    → get "code_verifier" body' ≡ some v'
    → get "redirect_uri" body' ≡ some r'
    → (grant_authorization_code prim cfg client' u u' fresh' body' dpop' cert'
        (grant_authorization_code prim cfg client t t' fresh body dpop cert s).1).0
      ≡ oauth_error invalid_grant
code_is_single_use prim cfg client client' t t' u u' fresh fresh' dpop dpop' cert cert' body body' c
      v v' r r' s ec ev er ec' ev' er' =
    unknown_refused prim cfg client' u u' fresh' dpop' cert' body' c v' r' _ ec' ev' er' (
      rw (burnt prim cfg client t t' fresh dpop cert body c v r s ec ev er) (
        ground (
          arith,
          get-delete (prim.hash_token c) (prim.hash_token c) s.codes,
          eq_iff (prim.hash_token c) (prim.hash_token c),
        )))
