-- ===== src/Oidc/Grants/Race.antt =====
-- Two refresh requests with one token, both past the checks before either rotates it.
use absolute_auth.Prelude.{
  ℕ, String, ◌≡◌, refl, false, true, Option, none, some, arith, Option-cases, inl, inr,
}
use absolute_auth.JsMap.{find_value}
use absolute_auth.JsMap.Update.{Nowhere}
use absolute_auth.Oidc.Types.{OauthClient, RefreshToken}
use absolute_auth.Oidc.Provider.{Config, Primitives, Fresh}
use absolute_auth.Oidc.Refresh
use absolute_auth.Oidc.Refresh.{
  get_token, rotate_token, revoke_by_consumed_token, active_for_hash, is_active_for, token_of,
}
use absolute_auth.Oidc.Refresh.Validity.{owns, IsValid}
use absolute_auth.Oidc.Refresh.Reuse.{get_token-rotate_token, reuse_revokes_replacement}
use absolute_auth.Oidc.Tokens.{token_set, refresh_record}
use absolute_auth.Oidc.Grants.{
  oauth_error, token_response, invalid_grant, refresh_issue, refresh_request,
}

-- Rotating a token that the store does not return reports its reuse.
dead_rotation :
    (h : String) (r : RefreshToken) (families : Refresh.Store)
    → get_token h families ≡ none
    → rotate_token h r families ≡ (false, (revoke_by_consumed_token h families).1)
unfolding rotate_token get_token token_of
dead_rotation h r families e = elim (Option-cases (find_value (is_active_for h) families)) [
  | inl absent ↦ rw (absent, rotate_token) refl
  | inr (f, held) ↦ ground (arith, e, held)
]

module _ (prim : Primitives) (cfg : Config) (client : OauthClient) (now : ℕ) (fresh : Fresh)
    (h : String) (cert : Option String) (token : RefreshToken) where
  abbrev new_record : RefreshToken
  new_record = refresh_record prim cfg now fresh (refresh_request client cert token)

  issue-rotated :
      (families : Refresh.Store)
      → (rotate_token h new_record families).0 ≡ true
      → refresh_issue prim cfg client now fresh h cert token families ≡ (
        token_response (token_set prim cfg now fresh (refresh_request client cert token)),
        (rotate_token h new_record families).1,
      )
  unfolding refresh_issue
  issue-rotated families e = ground (arith, e)

  issue-refused :
      (families families' : Refresh.Store)
      → rotate_token h new_record families ≡ (false, families')
      → refresh_issue prim cfg client now fresh h cert token families
        ≡ (oauth_error invalid_grant, families')
  unfolding refresh_issue
  issue-refused families families' e = ground (arith, e)

-- Of two requests that both found the same refresh token active in a valid store, the one that
-- issues first is answered with tokens and the other is refused with invalid_grant; afterwards the
-- store returns neither the token nor the one that replaced it. The first request's new hash is
-- assumed to be new to the store.
pub racing_refresh_refused :
    (prim : Primitives) (cfg : Config) (client : OauthClient) (now now' : ℕ) (fresh fresh' : Fresh)
    (h : String) (cert cert' : Option String) (token : RefreshToken) (families : Refresh.Store)
    → IsValid families
    → Nowhere (owns (prim.hash_token fresh.refresh_token)) families
    → get_token h families ≡ some token
    → ((refresh_issue prim cfg client now fresh h cert token families).0
        ≡ token_response (token_set prim cfg now fresh (refresh_request client cert token)))
      × ((refresh_issue prim cfg client now' fresh' h cert' token
            (refresh_issue prim cfg client now fresh h cert token families).1).0
          ≡ oauth_error invalid_grant)
      × (get_token
            (prim.hash_token fresh.refresh_token)
            (refresh_issue prim cfg client now' fresh' h cert' token
              (refresh_issue prim cfg client now fresh h cert token families).1).1
          ≡ none)
      × (get_token h
            (refresh_issue prim cfg client now' fresh' h cert' token
              (refresh_issue prim cfg client now fresh h cert token families).1).1
          ≡ none)
unfolding refresh_record
racing_refresh_refused prim cfg client now now' fresh fresh' h cert cert' token families valid new
      held =
    let r = new_record prim cfg client now fresh h cert token in
    let (rotated, _, gone) = get_token-rotate_token h token r families valid new held in
    let (_, revoked, dead) = reuse_revokes_replacement h token r families valid new held in
    let first = issue-rotated prim cfg client now fresh h cert token families rotated in
    let second =
      issue-refused prim cfg client now' fresh' h cert' token (rotate_token h r families).1 _ (
        dead_rotation h (new_record prim cfg client now' fresh' h cert' token)
          (rotate_token h r families).1 gone) in
    rw first (rw second (refl, refl, revoked, dead))
