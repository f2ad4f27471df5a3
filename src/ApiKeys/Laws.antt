-- ===== src/ApiKeys/Laws.antt =====
-- What a client-credentials grant checks, and that the token it mints is accepted until it expires.
use Prim.Native.String.{◌++◌ as ◌+++◌}
use text.Mathlib.Text.{starts_with}
use text.Mathlib.TextLemmas.{cons≢nil, cons-append}
use text.Mathlib.TextPositions.{starts_with-append, slice-append_right, len-append}
use absolute_auth.Prelude.{
  ℕ, ◌+◌, ◌≡◌, ◌≢◌, ◌∙◌, refl, sym, subst, String, Bool, true, false, not, any, Option, none, some,
  List, [], ◌∷◌, ◌==◌, string_eq, leb, if◌then◌else◌, includes, filter, All, arith, eq_iff,
  Bool-cases, inl, inr,
}
use absolute_auth.JsMap.{JsMap, get, set, find_value}
use absolute_auth.JsMap.Laws.{get-set}
use absolute_auth.JsMap.Update.{Nowhere}
use absolute_auth.Crypto.Totp.{Runtime, hash_token}
use absolute_auth.Crypto.Window.{IsDigest, constant_time_equal_iff}
use absolute_auth.ApiKeys.{
  ApiKey, AccessToken, ApiClient, find_client, save_token, generate_token, find_by_hashed_token,
}
use absolute_auth.ApiKeys.Exchange.{
  granted_scopes, asks_more, Mint, minted, granted, invalid_client, invalid_scope, exchange_for,
  exchange_client_credentials,
}
use absolute_auth.ApiKeys.Resolve.{
  access_token, resolve_api_principal, read_bearer_token, verify_access_token,
}

abbrev pub Held : List String → List String → Type 0
Held scopes = All (λ scope. includes scope scopes ≡ true)

-- One more scope to hold.
Held-weaken :
    (s : String) (scopes requested : List String)
    → Held scopes requested
    → Held (s ∷ scopes) requested
unfolding includes
Held-weaken s scopes [] h = tt
Held-weaken s scopes (r ∷ requested) h = (ground (arith, h.0), Held-weaken s scopes requested h.1)

included : (scopes : List String) → Held scopes scopes
unfolding includes
included [] = tt
included (s ∷ scopes) = (ground (arith, eq_iff s s), Held-weaken s scopes scopes (included scopes))

filtered :
    (scopes requested : List String)
    → Held scopes (filter (λ scope. includes scope scopes) requested)
filtered scopes [] = tt
filtered scopes (s ∷ requested) = elim (Bool-cases (includes s scopes)) [
  | inl e ↦ rw e (e, filtered scopes requested)
  | inr e ↦ rw e (filtered scopes requested)
]

granted_scopes-Held :
    (scopes : List String) (requested : Option (List String))
    → Held scopes (granted_scopes scopes requested)
unfolding granted_scopes
granted_scopes-Held scopes none = included scopes
granted_scopes-Held scopes (some []) = included scopes
granted_scopes-Held scopes (some (s ∷ requested)) = filtered scopes (s ∷ requested)

-- The scopes that a request stands for: all of the client where it names none.
abbrev pub asked_scopes : List String → Option (List String) → List String
asked_scopes client_scopes none = client_scopes
asked_scopes client_scopes (some []) = client_scopes
asked_scopes client_scopes (some (s ∷ requested)) = s ∷ requested

filter-held :
    (scopes requested : List String)
    → any (λ scope. not (includes scope scopes)) requested ≡ false
    → filter (λ scope. includes scope scopes) requested ≡ requested
filter-held scopes [] h = refl
filter-held scopes (r ∷ requested) h = ground (arith, h, filter-held scopes requested)

granted_scopes-asked :
    (scopes : List String) (requested : Option (List String))
    → asks_more scopes requested ≡ false
    → granted_scopes scopes requested ≡ asked_scopes scopes requested
unfolding granted_scopes asks_more
granted_scopes-asked scopes none h = refl
granted_scopes-asked scopes (some []) h = refl
granted_scopes-asked scopes (some (s ∷ requested)) h = filter-held scopes (s ∷ requested) h

-- What a grant found and stored.
abbrev pub Granted :
    Runtime
    → JsMap ApiClient
    → String
    → String
    → Mint
    → Option (List String)
    → String
    → List String
    → JsMap AccessToken
    → Type 0
Granted runtime clients client_id secret mint requested token scopes m' =
    (client : ApiClient) × (get client_id clients ≡ some client)
    × (runtime.sha256 (runtime.base64url (runtime.sha256 secret))
        ≡ runtime.sha256 client.hashed_secret)
    × Held client.scopes scopes
    × (scopes ≡ asked_scopes client.scopes requested)
    × (get mint.uuid m'
        ≡ some (record {
          client_id = client.client_id;
          created_at = mint.now;
          expires_at = mint.now + mint.ttl_ms;
          hashed_token = runtime.base64url (runtime.sha256 token);
          owner_id = client.owner_id;
          scopes = scopes;
          token_id = mint.uuid;
        }))

module _ (runtime : Runtime) (clients : JsMap ApiClient) (client_id secret : String)
    (mint : Mint) where
  granted_for :
      (o : Option ApiClient) (requested : Option (List String)) (m : JsMap AccessToken)
      (token : String) (expires_in : ℕ) (scopes : List String)
      → IsDigest runtime.sha256
      → get client_id clients ≡ o
      → (exchange_for runtime o secret mint requested m).0 ≡ granted token expires_in scopes
      → Granted runtime clients client_id secret mint requested token scopes
          (exchange_for runtime o secret mint requested m).1
  unfolding exchange_for minted hash_token
  granted_for none requested m token expires_in scopes d e h = absurd (ground (arith, h))
  granted_for (some client) requested m token expires_in scopes d e h =
      let same : granted_scopes client.scopes requested ≡ scopes = ground (arith, h) in
      (
        client,
        e,
        (constant_time_equal_iff runtime (hash_token runtime secret) client.hashed_secret d).0
            (ground (arith, h)),
        subst (Held client.scopes) same (granted_scopes-Held client.scopes requested),
        sym same ∙ granted_scopes-asked client.scopes requested (ground (arith, h)),
        ground (
          arith,
          h,
          same,
          get-set mint.uuid mint.uuid (minted runtime mint client requested) m,
          eq_iff mint.uuid mint.uuid,
        ),
      )

-- A client-credentials exchange that returns a token found the client, and the digest of the
-- presented secret agrees with the stored one under SHA-256; the scopes are those requested, or all of
-- the client's where none are named, and each is one of the client's; the token is stored by its
-- digest under its id, with the client's id and owner, those scopes and the end of its life. An
-- exchange refused for the client or for the scopes leaves the tokens as they were. SHA-256 is assumed
-- to return bytes, always as many.
pub exchange_sound :
    (runtime : Runtime) (clients : JsMap ApiClient) (client_id secret : String) (mint : Mint)
    (requested : Option (List String)) (m : JsMap AccessToken)
    → IsDigest runtime.sha256
    → ((token : String) (expires_in : ℕ) (scopes : List String)
        → (exchange_client_credentials runtime clients client_id secret mint requested m).0
          ≡ granted token expires_in scopes
        → Granted runtime clients client_id secret mint requested token scopes
            (exchange_client_credentials runtime clients client_id secret mint requested m).1)
      × ((exchange_client_credentials runtime clients client_id secret mint requested m).0
            ≡ invalid_client
          → (exchange_client_credentials runtime clients client_id secret mint requested m).1 ≡ m)
      × ((exchange_client_credentials runtime clients client_id secret mint requested m).0
            ≡ invalid_scope
          → (exchange_client_credentials runtime clients client_id secret mint requested m).1 ≡ m)
unfolding exchange_client_credentials exchange_for find_client
exchange_sound runtime clients client_id secret mint requested m d = (
  λ token expires_in scopes h.
      granted_for runtime clients client_id secret mint (get client_id clients) requested m token
        expires_in scopes d refl h,
  λ h. ground (arith, h),
  λ h. ground (arith, h),
)

find_value-set :
    (p : AccessToken → Bool) (k : String) (v : AccessToken) (m : JsMap AccessToken)
    → Nowhere p m
    → p v ≡ true
    → find_value p (set k v m) ≡ some v
unfolding find_value set
find_value-set p k v [] n h = ground (arith, h)
find_value-set p k v ((j, w) ∷ m) n h = ground (arith, n.0, h, find_value-set p k v m n.1 h)

-- The token in an Authorization header.
bearer_text :
    (trim : String → String) (token : String)
    → trim token ≡ token
    → token ≢ ""
    → read_bearer_token trim (some ("Bearer " +++ token)) ≡ some token
unfolding read_bearer_token
bearer_text trim token h n = ground (
  arith,
  h,
  n,
  eq_iff token "",
  starts_with-append "Bearer " token,
  slice-append_right "Bearer " token,
  len-append "Bearer " token,
)

at_text :
    (random : String) → (starts_with ("at_" +++ random) "at_" ≡ true) × (("at_" +++ random) ≢ "")
at_text random =
    (starts_with-append "at_" random, λ e. cons≢nil (sym (cons-append "a" "t_" random) ∙ e))

-- What a grant to a client was.
granted_facts :
    (runtime : Runtime) (client : ApiClient) (secret : String) (mint : Mint)
    (requested : Option (List String)) (m : JsMap AccessToken) (token : String) (expires_in : ℕ)
    (scopes : List String)
    → (exchange_for runtime (some client) secret mint requested m).0
      ≡ granted token expires_in scopes
    → (token ≡ generate_token "at_" mint.random)
      × (granted_scopes client.scopes requested ≡ scopes)
      × ((exchange_for runtime (some client) secret mint requested m).1
          ≡ set mint.uuid (minted runtime mint client requested) m)
unfolding exchange_for minted save_token
granted_facts runtime client secret mint requested m token expires_in scopes h =
    (ground (arith, h), ground (arith, h), ground (arith, h))

resolved :
    (runtime : Runtime) (trim : String → String) (key : Option String) (tokens : JsMap AccessToken)
    (keys : Option (JsMap ApiKey)) (now : ℕ) (random : String) (t : AccessToken)
    → trim ("at_" +++ random) ≡ "at_" +++ random
    → find_value (λ t. t.hashed_token == hash_token runtime ("at_" +++ random)) tokens ≡ some t
    → (resolve_api_principal runtime trim key
        (some ("Bearer " +++ ("at_" +++ random)))
        now
        (record { access_tokens = some tokens; api_keys = keys })).0
      ≡ (if leb t.expires_at now
          then none
          else some (record {
            id = t.client_id;
            kind = access_token;
            owner_id = t.owner_id;
            scopes = t.scopes;
          }))
unfolding resolve_api_principal verify_access_token find_by_hashed_token
resolved runtime trim key tokens keys now random t h f =
    rw (bearer_text trim ("at_" +++ random) h (at_text random).1)
      (ground (arith, (at_text random).0, (at_text random).1, eq_iff ("at_" +++ random) "", f))

-- A token that an exchange returned, presented as a Bearer token, is the principal of its client with
-- the granted scopes until the moment it expires, and no principal from then on. The token's
-- digest is assumed to be new to the store, and trim to leave the token as it is.
pub minted_token_resolves :
    (runtime : Runtime) (clients : JsMap ApiClient) (client : ApiClient) (client_id secret : String)
    (mint : Mint) (requested : Option (List String)) (m : JsMap AccessToken)
    (trim : String → String) (key : Option String) (keys : Option (JsMap ApiKey)) (now : ℕ)
    (token : String) (expires_in : ℕ) (scopes : List String)
    → get client_id clients ≡ some client
    → (exchange_client_credentials runtime clients client_id secret mint requested m).0
      ≡ granted token expires_in scopes
    → Nowhere (λ t. t.hashed_token == hash_token runtime token) m
    → trim token ≡ token
    → (resolve_api_principal runtime trim key (some ("Bearer " +++ token)) now (record {
      access_tokens =
          some (exchange_client_credentials runtime clients client_id secret mint requested m).1;
      api_keys = keys;
    })).0
      ≡ (if leb (mint.now + mint.ttl_ms) now
          then none
          else some (record {
            id = client.client_id;
            kind = access_token;
            owner_id = client.owner_id;
            scopes = scopes;
          }))
unfolding exchange_client_credentials find_client generate_token minted
minted_token_resolves runtime clients client client_id secret mint requested m trim key keys now
      token expires_in scopes e h n t =
    let facts =
      granted_facts runtime client secret mint requested m token expires_in scopes (rw e at h) in
    let fits : hash_token runtime ("at_" +++ mint.random)
          == hash_token runtime ("at_" +++ mint.random)
        ≡ true =
      ground (
        arith,
        eq_iff (hash_token runtime ("at_" +++ mint.random))
            (hash_token runtime ("at_" +++ mint.random)),
      ) in
    let found =
      find_value-set (λ t. t.hashed_token == hash_token runtime ("at_" +++ mint.random)) mint.uuid
        (minted runtime mint client requested) m (rw facts.0 at n) fits in
    rw (facts.0, e, facts.2)
      (resolved runtime trim key (set mint.uuid (minted runtime mint client requested) m) keys now
          mint.random (minted runtime mint client requested) (rw facts.0 at t) found
        ∙ rw facts.1 refl)
