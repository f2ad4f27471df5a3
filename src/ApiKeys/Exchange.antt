-- ===== src/ApiKeys/Exchange.antt =====
-- exchangeClientCredentials (src/apikeys/config.ts).
use absolute_auth.Prelude.{
  ℕ, ◌+◌, ◌/◌, String, Bool, false, not, Option, none, some, List, [], ◌∷◌, string_eq,
  option_string_eq, if◌then◌else◌, includes, filter, any,
}
use absolute_auth.JsMap.{JsMap}
use absolute_auth.Crypto.Totp.{Runtime, hash_token, constant_time_equal}
use absolute_auth.ApiKeys.{ApiClient, AccessToken, find_client, save_token, generate_token}

unfoldable pub granted_scopes : List String → Option (List String) → List String
granted_scopes client_scopes none = client_scopes
granted_scopes client_scopes (some []) = client_scopes
granted_scopes client_scopes (some (s ∷ requested)) =
    filter (λ scope. includes scope client_scopes) (s ∷ requested)

-- requestedScopes?.some((scope) => !client.scopes.includes(scope)) === true
unfoldable pub asks_more : List String → Option (List String) → Bool
asks_more client_scopes none = false
asks_more client_scopes (some requested) =
    any (λ scope. not (includes scope client_scopes)) requested

pub data ClientCredentialsResult : Type 0 where
  invalid_client : ClientCredentialsResult
  invalid_scope : ClientCredentialsResult
  granted :
      (access_token : String) (expires_in : ℕ) (scopes : List String) → ClientCredentialsResult

-- The random text of the token, its id, and the clock.
pub record Mint : Type 0 where
  pub random : String
  pub uuid : String
  pub now : ℕ
  pub ttl_ms : ℕ

unfoldable pub minted : Runtime → Mint → ApiClient → Option (List String) → AccessToken
unfolding generate_token granted_scopes
minted runtime mint client requested = record {
  client_id = client.client_id;
  created_at = mint.now;
  expires_at = mint.now + mint.ttl_ms;
  hashed_token = hash_token runtime (generate_token "at_" mint.random);
  owner_id = client.owner_id;
  scopes = granted_scopes client.scopes requested;
  token_id = mint.uuid;
}

unfoldable pub exchange_for :
    Runtime
    → Option ApiClient
    → String
    → Mint
    → Option (List String)
    → JsMap AccessToken
    → ClientCredentialsResult × JsMap AccessToken
unfolding asks_more minted save_token granted_scopes generate_token
exchange_for runtime none client_secret mint requested m = (invalid_client, m)
exchange_for runtime (some client) client_secret mint requested m =
    if not (constant_time_equal runtime (hash_token runtime client_secret) client.hashed_secret)
    then (invalid_client, m)
    else if asks_more client.scopes requested
    then (invalid_scope, m)
    else (
      granted (generate_token "at_" mint.random) (mint.ttl_ms / 1000)
          (granted_scopes client.scopes requested),
      save_token (minted runtime mint client requested) m,
    )

unfoldable pub exchange_client_credentials :
    Runtime
    → JsMap ApiClient
    → (client_id client_secret : String) → Mint
    → Option (List String)
    → JsMap AccessToken
    → ClientCredentialsResult × JsMap AccessToken
unfolding exchange_for find_client
exchange_client_credentials runtime clients client_id client_secret mint requested m =
    exchange_for runtime (find_client client_id clients) client_secret mint requested m
