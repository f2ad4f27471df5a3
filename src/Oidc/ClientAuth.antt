-- ===== src/Oidc/ClientAuth.antt =====
-- Client authentication at the token endpoint: the signed assertion (src/oidc/clientAuth.ts), the
-- TLS certificate and the secret (authenticateTokenClient of src/oidc/routes.ts).
pub mod Laws
pub mod Assertion
use absolute_auth.Prelude.{
  ℕ, String, Bool, true, false, not, ◌&&◌, ◌||◌, Option, none, some, List, [], ◌∷◌, ◌+◌, ◌*◌, ◌==◌,
  string_eq, ltb, leb, if◌then◌else◌, includes, any,
}
use absolute_auth.JsMap.{get}
use absolute_auth.Json.{
  Json, null, bool, num, str, arr, obj, Items, nil, cons, Claims, as_string, as_number,
}
use absolute_auth.Oidc.Types.{OauthClient}
use absolute_auth.Oidc.Provider.{Config, Primitives, ms_per_second, ms_per_minute}
use absolute_auth.Oidc.Ledger.{JtiStore, record_if_fresh}

-- Reading and verifying a JWT, and fetching a client's key set.
pub record JwtPrimitives : Type 0 where
  pub decode_payload : String → Option Claims
  pub verify_jwt : String → Claims → Bool
  pub fetch_jwks_uri : String → Option (List Claims)

-- Array.isArray(aud) && aud.includes(expected)
items_include : String → Items → Bool
items_include expected nil = false
items_include expected (cons null rest) = items_include expected rest
items_include expected (cons (bool b) rest) = items_include expected rest
items_include expected (cons (num n) rest) = items_include expected rest
items_include expected (cons (str s) rest) = s == expected || items_include expected rest
items_include expected (cons (arr xs) rest) = items_include expected rest
items_include expected (cons (obj fs) rest) = items_include expected rest

unfoldable pub aud_matches : String → Option Json → Bool
unfolding items_include
aud_matches expected none = false
aud_matches expected (some null) = false
aud_matches expected (some (bool b)) = false
aud_matches expected (some (num n)) = false
aud_matches expected (some (str s)) = s == expected
aud_matches expected (some (arr xs)) = items_include expected xs
aud_matches expected (some (obj fs)) = false

-- The issuer, where it is the subject and both are strings.
unfoldable pub asserted_issuer : Option String → Option String → Option String
asserted_issuer none sub = none
asserted_issuer (some iss) none = none
asserted_issuer (some iss) (some sub) = if iss == sub then some iss else none

abbrev pub max_assertion_lifetime_ms : ℕ
max_assertion_lifetime_ms = 5 * ms_per_minute

-- Not expired, and not valid for longer than the code accepts.
unfoldable pub lifetime_ok : ℕ → ℕ → Bool
lifetime_ok now exp_ms = ltb now exp_ms && leb exp_ms (now + max_assertion_lifetime_ms)

-- The issuer and the expiry in milliseconds of an assertion that passes the claim checks.
checked_times : ℕ → Option String → Option ℕ → Option (String × ℕ)
unfolding lifetime_ok
checked_times now none exp = none
checked_times now (some iss) none = none
checked_times now (some iss) (some exp) =
    if lifetime_ok now (exp * ms_per_second) then some (iss, exp * ms_per_second) else none

unfoldable pub checked_claims : ℕ → String → Claims → Option (String × ℕ)
unfolding checked_times aud_matches asserted_issuer as_string as_number
checked_claims now expected c =
    if aud_matches expected (get "aud" c)
    then checked_times now (asserted_issuer (as_string (get "iss" c)) (as_string (get "sub" c)))
        (as_number (get "exp" c))
    else none

fetched : JwtPrimitives → Option String → List Claims
fetched jwt none = []
fetched jwt (some uri) = elim (jwt.fetch_jwks_uri uri) [ none ↦ [] | some keys ↦ keys ]

-- The inline keys, or those behind the URI; an empty list stands for none.
unfoldable pub resolve_client_jwks : JwtPrimitives → OauthClient → List Claims
unfolding fetched
resolve_client_jwks jwt client = elim client.jwks [
  | none ↦ fetched jwt client.jwks_uri
  | some [] ↦ fetched jwt client.jwks_uri
  | some (k ∷ ks) ↦ k ∷ ks
]

unfoldable pub verify_against_any : JwtPrimitives → String → List Claims → Bool
verify_against_any jwt assertion keys = any (jwt.verify_jwt assertion) keys

unfoldable pub record_jti :
    ℕ → OauthClient → Option String → ℕ → Option JtiStore → Option OauthClient × Option JtiStore
unfolding record_if_fresh
record_jti now client jti exp_ms none = (some client, none)
record_jti now client none exp_ms (some seen) = (none, some seen)
record_jti now client (some jti) exp_ms (some seen) =
    let (fresh, seen') = record_if_fresh now client.client_id jti exp_ms seen in
    (if fresh then some client else none, some seen')

signed_by :
    JwtPrimitives
    → ℕ
    → String
    → Claims
    → ℕ
    → Option OauthClient
    → Option JtiStore
    → Option OauthClient × Option JtiStore
unfolding verify_against_any resolve_client_jwks record_jti
signed_by jwt now assertion c exp_ms none jtis = (none, jtis)
signed_by jwt now assertion c exp_ms (some client) jtis =
    if verify_against_any jwt assertion (resolve_client_jwks jwt client)
    then record_jti now client (as_string (get "jti" c)) exp_ms jtis
    else (none, jtis)

verify_checked :
    JwtPrimitives
    → (String → Option OauthClient)
    → ℕ
    → String
    → Claims
    → Option (String × ℕ)
    → Option JtiStore
    → Option OauthClient × Option JtiStore
unfolding signed_by
verify_checked jwt resolve now assertion c none jtis = (none, jtis)
verify_checked jwt resolve now assertion c (some (iss, exp_ms)) jtis =
    signed_by jwt now assertion c exp_ms (resolve iss) jtis

verify_decoded :
    JwtPrimitives
    → (String → Option OauthClient)
    → ℕ
    → ℕ
    → String
    → String
    → Option Claims
    → Option JtiStore
    → Option OauthClient × Option JtiStore
unfolding verify_checked checked_claims
verify_decoded jwt resolve now now' expected assertion none jtis = (none, jtis)
verify_decoded jwt resolve now now' expected assertion (some c) jtis =
    verify_checked jwt resolve now' assertion c (checked_claims now expected c) jtis

-- verifyClientAssertion: `now` at the expiry test, `now'` in the ledger.
unfoldable pub verify_client_assertion :
    JwtPrimitives
    → (String → Option OauthClient)
    → ℕ
    → ℕ
    → String
    → String
    → Option JtiStore
    → Option OauthClient × Option JtiStore
unfolding verify_decoded
verify_client_assertion jwt resolve now now' expected assertion jtis =
    verify_decoded jwt resolve now now' expected assertion (jwt.decode_payload assertion) jtis

-- constantTimeEqual compares the SHA-256 digests of its arguments.
unfoldable pub constant_time_equal : Primitives → String → String → Bool
constant_time_equal prim left right = prim.hash_token left == prim.hash_token right

unfoldable pub secret_matches : Primitives → Option String → Option String → Bool
unfolding constant_time_equal
secret_matches prim none secret = true
secret_matches prim (some hashed) none = false
secret_matches prim (some hashed) (some secret) =
    constant_time_equal prim (prim.hash_token secret) hashed

-- authenticateClient, on the client that its id resolves to.
unfoldable pub authenticate_client :
    Primitives → Option OauthClient → Option String → Option OauthClient
unfolding secret_matches
authenticate_client prim none secret = none
authenticate_client prim (some client) secret =
    if secret_matches prim client.hashed_secret secret then some client else none

unfoldable pub thumbprint_registered : Option String → Option (List String) → Bool
unfolding includes
thumbprint_registered none registered = false
thumbprint_registered (some presented) none = false
thumbprint_registered (some presented) (some registered) = includes presented registered

-- tryMtlsAuth, on the thumbprint of the certificate that the proxy forwards.
unfoldable pub try_mtls_auth :
    Option String → Option OauthClient → Option (OauthClient × Option String)
unfolding thumbprint_registered
try_mtls_auth presented none = none
try_mtls_auth presented (some client) =
    if thumbprint_registered presented client.tls_certificate_bound_thumbprints
    then some (client, presented)
    else none

unfoldable pub with_no_cert : Option OauthClient → Option (OauthClient × Option String)
with_no_cert none = none
with_no_cert (some client) = some (client, none)

is_given : Option String → Bool
is_given none = false
is_given (some s) = true

unfoldable pub by_secret :
    Primitives → Config → Option OauthClient → Option String → Option (OauthClient × Option String)
unfolding authenticate_client with_no_cert is_given
by_secret prim cfg candidate secret =
    if cfg.strict_fapi && is_given secret
    then none
    else with_no_cert (authenticate_client prim candidate secret)

-- The path of a request without an assertion, from the client id on.
unfoldable pub authenticate_candidate :
    Primitives
    → Config
    → (presented secret : Option String) → Option OauthClient
    → Option (OauthClient × Option String)
unfolding by_secret try_mtls_auth
authenticate_candidate prim cfg presented secret candidate =
    elim (try_mtls_auth presented candidate) [
      | none ↦ by_secret prim cfg candidate secret
      | some found ↦ some found
    ]

pub record Credentials : Type 0 where
  pub assertion : Option String
  pub assertion_type : Option String
  pub client_id : Option String
  pub client_secret : Option String
  pub cert_thumbprint : Option String

abbrev pub client_assertion_type : String
client_assertion_type = "urn:ietf:params:oauth:client-assertion-type:jwt-bearer"

-- The assertion, where one of the type that the code knows is sent.
unfoldable pub sent_assertion : Option String → Option String → Option String
sent_assertion none kind = none
sent_assertion (some a) none = none
sent_assertion (some a) (some kind) = if kind == client_assertion_type then some a else none

unfoldable pub route :
    Primitives
    → Config
    → JwtPrimitives
    → (String → Option OauthClient)
    → ℕ
    → ℕ
    → String
    → Credentials
    → (assertion client_id : Option String) → Option JtiStore
    → Option (OauthClient × Option String) × Option JtiStore
unfolding verify_client_assertion authenticate_candidate with_no_cert
route prim cfg jwt resolve now now' token_url c (some a) client_id jtis =
    let (client, jtis') = verify_client_assertion jwt resolve now now' token_url a jtis in
    (with_no_cert client, jtis')
route prim cfg jwt resolve now now' token_url c none none jtis = (none, jtis)
route prim cfg jwt resolve now now' token_url c none (some id) jtis =
    (authenticate_candidate prim cfg c.cert_thumbprint c.client_secret (resolve id), jtis)

-- authenticateTokenClient. `client_id` and `client_secret` of the credentials are those of the body,
-- or of the Authorization header where the body has none.
unfoldable pub authenticate_token_client :
    Primitives
    → Config
    → JwtPrimitives
    → (String → Option OauthClient)
    → ℕ
    → ℕ
    → String
    → Credentials
    → Option JtiStore
    → Option (OauthClient × Option String) × Option JtiStore
unfolding route sent_assertion
authenticate_token_client prim cfg jwt resolve now now' token_url c jtis =
    route prim cfg jwt resolve now now' token_url c (sent_assertion c.assertion c.assertion_type)
      c.client_id jtis
