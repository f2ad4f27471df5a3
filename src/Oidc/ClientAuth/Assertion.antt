-- ===== src/Oidc/ClientAuth/Assertion.antt =====
-- A signed client assertion is accepted once.
use absolute_auth.Prelude.{
  ℕ, String, ◌≡◌, ◌∙◌, ◌⊎◌, ◌≤◌, refl, ap, true, false, Option, none, some, List, arith, inl, inr,
  All,
}
use absolute_auth.JsMap.{get}
use absolute_auth.JsMap.Laws.{IsMap}
use absolute_auth.Json.{Claims, as_string, as_number}
use absolute_auth.Oidc.Types.{OauthClient}
use absolute_auth.Oidc.Ledger.{JtiStore, record_if_fresh}
use absolute_auth.Oidc.Ledger.Laws.{Attempt, after, after_all, jti_replay_refused}
use absolute_auth.Oidc.ClientAuth.{
  JwtPrimitives, verify_client_assertion, verify_decoded, verify_checked, signed_by, record_jti,
  checked_claims, checked_times,
}

-- The use of the ledger that an assertion with these claims makes.
abbrev attempt : ℕ → OauthClient → String → ℕ → Attempt
attempt now client jti e = record {
  now = now;
  client_id = client.client_id;
  jti = jti;
  expires_at = e;
}

-- What an accepted assertion went through.
record Accepted (resolve : String → Option OauthClient) (now' : ℕ) (c : Claims) (iss : String)
    (e : ℕ) (seen seen' : JtiStore) (client : OauthClient) : Type 0 where
  jti : String
  jti_given : as_string (get "jti" c) ≡ some jti
  resolved : resolve iss ≡ some client
  fresh : (record_if_fresh now' client.client_id jti e seen).0 ≡ true
  left : seen' ≡ after (attempt now' client jti e) seen

times_same :
    (now u : ℕ) (iss : Option String) (exp : Option ℕ) (p : String × ℕ)
    → checked_times now iss exp ≡ some p
    → ((checked_times u iss exp ≡ none) ⊎ (checked_times u iss exp ≡ some p))
unfolding checked_times
times_same now u none exp p e = ground arith
times_same now u (some iss) none p e = ground arith
times_same now u (some iss) (some exp) p e = ground arith

checked_same :
    (now u : ℕ) (expected : String) (c : Claims) (p : String × ℕ)
    → checked_claims now expected c ≡ some p
    → (checked_claims u expected c ≡ none) ⊎ (checked_claims u expected c ≡ some p)
unfolding checked_claims
checked_same now u expected c p e = ground (arith, times_same now u _ (as_number (get "exp" c)) p)

module _ (jwt : JwtPrimitives) (resolve : String → Option OauthClient) (now' : ℕ)
    (assertion : String) (c : Claims) (e : ℕ) (seen : JtiStore) where
  recorded_under :
      (j : String) (k client : OauthClient) (seen' : JtiStore)
      → record_jti now' k (some j) e (some seen) ≡ (some client, some seen')
      → (k ≡ client)
        × ((record_if_fresh now' k.client_id j e seen).0 ≡ true)
        × (seen' ≡ after (attempt now' k j e) seen)
  unfolding record_jti
  recorded_under j k client seen' h = ground arith

  recorded :
      (jti : Option String) (k client : OauthClient) (seen' : JtiStore)
      → record_jti now' k jti e (some seen) ≡ (some client, some seen')
      → (j : String) × (jti ≡ some j)
        × (k ≡ client)
        × ((record_if_fresh now' k.client_id j e seen).0 ≡ true)
        × (seen' ≡ after (attempt now' k j e) seen)
  unfolding record_jti
  recorded none k client seen' h = ground arith
  recorded (some j) k client seen' h =
      let (same, fresh, left) = recorded_under j k client seen' h in (j, refl, same, fresh, left)

  signed_by-Accepted :
      (iss : String) (o : Option OauthClient) (seen' : JtiStore) (client : OauthClient)
      → resolve iss ≡ o
      → signed_by jwt now' assertion c e o (some seen) ≡ (some client, some seen')
      → Accepted resolve now' c iss e seen seen' client
  unfolding signed_by
  signed_by-Accepted iss none seen' client r h = ground arith
  signed_by-Accepted iss (some k) seen' client r h =
      let (j, given, same, fresh, left) =
        recorded (as_string (get "jti" c)) k client seen' (ground (arith, h)) in
      record {
        jti = j;
        jti_given = given;
        resolved = r ∙ ap some same;
        fresh = rw (← same) fresh;
        left = rw (← same) left;
      }

  verify-Accepted :
      (now : ℕ) (expected iss : String) (seen' : JtiStore) (client : OauthClient)
      → jwt.decode_payload assertion ≡ some c
      → checked_claims now expected c ≡ some (iss, e)
      → verify_client_assertion jwt resolve now now' expected assertion (some seen)
        ≡ (some client, some seen')
      → Accepted resolve now' c iss e seen seen' client
  unfolding verify_client_assertion verify_decoded verify_checked
  verify-Accepted now expected iss seen' client d k h =
      signed_by-Accepted iss (resolve iss) seen' client refl (rw (d, k) at h)

spent_refused :
    (jwt : JwtPrimitives) (u' : ℕ) (assertion : String) (c : Claims) (e : ℕ) (client : OauthClient)
    (jti : String) (seen : JtiStore)
    → as_string (get "jti" c) ≡ some jti
    → (record_if_fresh u' client.client_id jti e seen).0 ≡ false
    → (signed_by jwt u' assertion c e (some client) (some seen)).0 ≡ none
unfolding signed_by record_jti
spent_refused jwt u' assertion c e client jti seen given stale = ground (arith, given, stale)

-- Where the token endpoint keeps the ledger of assertion ids, a client assertion that was accepted
-- is not accepted again up to its expiry, whatever other assertions are recorded in between.
pub assertion_accepted_once :
    (jwt : JwtPrimitives) (resolve : String → Option OauthClient) (now now' u u' : ℕ)
    (expected assertion iss : String) (c : Claims) (e : ℕ) (between : List Attempt)
    (seen seen' : JtiStore) (client : OauthClient)
    → IsMap seen
    → jwt.decode_payload assertion ≡ some c
    → checked_claims now expected c ≡ some (iss, e)
    → All (λ t. t.now ≤ e) between
    → u' ≤ e
    → verify_client_assertion jwt resolve now now' expected assertion (some seen)
      ≡ (some client, some seen')
    → (verify_client_assertion jwt resolve u u' expected assertion
        (some (after_all between seen'))).0
      ≡ none
unfolding verify_client_assertion verify_decoded verify_checked
assertion_accepted_once jwt resolve now now' u u' expected assertion iss c e between seen seen'
      client v d k quiet alive h =
    let a =
      verify-Accepted jwt resolve now' assertion c e seen now expected iss seen' client d k h in
    let stale =
      jti_replay_refused (attempt now' client a.jti e) (attempt u' client a.jti e) between seen v
        refl refl quiet alive a.fresh in
    let spent =
      spent_refused jwt u' assertion c e client a.jti (after_all between seen') a.jti_given
        (rw a.left stale) in
    elim (checked_same now u expected c (iss, e) k) [
      | inl refused ↦ rw (d, refused) refl
      | inr passed ↦ rw (d, passed, a.resolved) spent
    ]
