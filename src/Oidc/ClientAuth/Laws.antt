-- ===== src/Oidc/ClientAuth/Laws.antt =====
-- When a client is authenticated, and that an assertion is accepted once.
use absolute_auth.Prelude.{
  ℕ, String, ◌≡◌, ◌≢◌, ◌⊎◌, refl, true, false, Option, none, some, string_eq, arith, eq_iff, inl,
  inr, ap,
}
use absolute_auth.Oidc.Types.{OauthClient}
use absolute_auth.Oidc.Provider.{Config, Primitives}
use absolute_auth.Oidc.Ledger.{JtiStore}
use absolute_auth.Oidc.ClientAuth.{
  JwtPrimitives, Credentials, authenticate_token_client, authenticate_candidate, sent_assertion,
  try_mtls_auth, secret_matches, by_secret, authenticate_client, thumbprint_registered,
  constant_time_equal, route,
}

-- How a request without an assertion proved that it comes from the client: a registered
-- certificate, a secret whose hash is the client's, or nothing where the client has no secret.
abbrev pub ProvedBy : Primitives → Config → Credentials → OauthClient → Option String → Type 0
ProvedBy prim cfg c client cert =
    ((cert ≡ c.cert_thumbprint)
      × (thumbprint_registered c.cert_thumbprint client.tls_certificate_bound_thumbprints ≡ true))
    ⊎ ((cert ≡ none) × (client.hashed_secret ≡ none))
    ⊎ ((secret hashed : String) × (cert ≡ none)
        × (client.hashed_secret ≡ some hashed)
        × (c.client_secret ≡ some secret)
        × (cfg.strict_fapi ≡ false)
        × (prim.hash_token (prim.hash_token secret) ≡ prim.hash_token hashed))

module _ (prim : Primitives) (cfg : Config) (k client : OauthClient) (cert : Option String) where
  with_secret :
      (hashed secret : String)
      → k.hashed_secret ≡ some hashed
      → by_secret prim cfg (some k) (some secret) ≡ some (client, cert)
      → (k ≡ client)
        × (cert ≡ none)
        × (cfg.strict_fapi ≡ false)
        × (prim.hash_token (prim.hash_token secret) ≡ prim.hash_token hashed)
  unfolding by_secret authenticate_client secret_matches constant_time_equal
  with_secret hashed secret eh e =
      ground (arith, eh, eq_iff (prim.hash_token (prim.hash_token secret)) (prim.hash_token hashed))

  without_secret :
      (hashed : String)
      → k.hashed_secret ≡ some hashed
      → by_secret prim cfg (some k) none ≢ some (client, cert)
  unfolding by_secret authenticate_client secret_matches
  without_secret hashed eh e = ground (arith, eh)

  public :
      (secret : Option String)
      → k.hashed_secret ≡ none
      → by_secret prim cfg (some k) secret ≡ some (client, cert)
      → (k ≡ client) × (cert ≡ none)
  unfolding by_secret authenticate_client secret_matches
  public secret eh e = ground (arith, eh)

  certificate :
      (presented secret : Option String)
      → authenticate_candidate prim cfg presented secret (some k) ≡ some (client, cert)
      → ((thumbprint_registered presented k.tls_certificate_bound_thumbprints ≡ true)
          × (k ≡ client)
          × (cert ≡ presented))
        ⊎ (by_secret prim cfg (some k) secret ≡ some (client, cert))
  unfolding authenticate_candidate try_mtls_auth
  certificate presented secret e = ground arith

secret_sound :
    (prim : Primitives) (cfg : Config) (c : Credentials) (k client : OauthClient)
    (cert hashed secret : Option String)
    → k.hashed_secret ≡ hashed
    → c.client_secret ≡ secret
    → by_secret prim cfg (some k) secret ≡ some (client, cert)
    → (k ≡ client) × ProvedBy prim cfg c client cert
secret_sound prim cfg c k client cert none secret eh es e =
    let (same, no_cert) = public prim cfg k client cert secret eh e in
    (same, inr (inl (no_cert, rw (← same) eh)))
secret_sound prim cfg c k client cert (some hashed) none eh es e =
    absurd (without_secret prim cfg k client cert hashed eh e)
secret_sound prim cfg c k client cert (some hashed) (some secret) eh es e =
    let (same, no_cert, lax, equal) = with_secret prim cfg k client cert hashed secret eh e in
    (same, inr (inr (secret, hashed, no_cert, rw (← same) eh, es, lax, equal)))

candidate_sound :
    (prim : Primitives) (cfg : Config) (c : Credentials) (candidate : Option OauthClient)
    (client : OauthClient) (cert : Option String)
    → authenticate_candidate prim cfg c.cert_thumbprint c.client_secret candidate
      ≡ some (client, cert)
    → (candidate ≡ some client) × ProvedBy prim cfg c client cert
unfolding authenticate_candidate try_mtls_auth by_secret authenticate_client
candidate_sound prim cfg c none client cert e = ground arith
candidate_sound prim cfg c (some k) client cert e =
    elim (certificate prim cfg k client cert c.cert_thumbprint c.client_secret e) [
      | inl (registered, same, presented) ↦ (ap some same, inl (presented, rw (← same) registered))
      | inr by ↦
          let (same, proved) = secret_sound prim cfg c k client cert _ _ refl refl by in
          (ap some same, proved)
    ]

given :
    (id : Option String) (prim : Primitives) (cfg : Config) (jwt : JwtPrimitives)
    (resolve : String → Option OauthClient) (now now' : ℕ) (url : String) (c : Credentials)
    (jtis jtis' : Option JtiStore) (client : OauthClient) (cert : Option String)
    → c.client_id ≡ id
    → route prim cfg jwt resolve now now' url c none id jtis ≡ (some (client, cert), jtis')
    → (i : String) × (c.client_id ≡ some i)
      × (resolve i ≡ some client)
      × (jtis' ≡ jtis)
      × ProvedBy prim cfg c client cert
unfolding route
given none prim cfg jwt resolve now now' url c jtis jtis' client cert ec e = ground arith
given (some i) prim cfg jwt resolve now now' url c jtis jtis' client cert ec e =
    let (resolved, proved) = candidate_sound prim cfg c (resolve i) client cert (ap (λ p. p.0) e) in
    (i, ec, resolved, ground arith, proved)

-- A token request without a client assertion is authenticated only as the registered client that
-- it names: by a certificate that the client registered, by a secret that hashes to the client's
-- where the profile is not strict, or, where the client has no secret, by its name alone.
pub token_client_sound :
    (prim : Primitives) (cfg : Config) (jwt : JwtPrimitives) (resolve : String → Option OauthClient)
    (now now' : ℕ) (url : String) (c : Credentials) (jtis jtis' : Option JtiStore)
    (client : OauthClient) (cert : Option String)
    → sent_assertion c.assertion c.assertion_type ≡ none
    → authenticate_token_client prim cfg jwt resolve now now' url c jtis
      ≡ (some (client, cert), jtis')
    → (i : String) × (c.client_id ≡ some i)
      × (resolve i ≡ some client)
      × (jtis' ≡ jtis)
      × ProvedBy prim cfg c client cert
unfolding authenticate_token_client
token_client_sound prim cfg jwt resolve now now' url c jtis jtis' client cert plain e =
    given c.client_id prim cfg jwt resolve now now' url c jtis jtis' client cert refl
      (rw plain at e)
