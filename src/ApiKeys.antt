-- ===== src/ApiKeys.antt =====
-- API keys and the client-credentials grant: src/apikeys/config.ts and its in-memory stores
-- (src/apikeys/inMemoryStores.ts). Random values and String.trim are parameters.
pub mod Exchange
pub mod Resolve
pub mod Laws
mod Tests
use Prim.Native.String.{◌++◌ as ◌+++◌, slice, len}
use text.Mathlib.Text.{starts_with}
use absolute_auth.Prelude.{
  ℕ, ◌+◌, ◌*◌, ◌/◌, String, Bool, true, false, not, ◌&&◌, ◌||◌, Option, none, some, List, [], ◌∷◌,
  ◌==◌, string_eq, option_string_eq, leb, if◌then◌else◌, includes, filter, any, sort_descending,
}
use absolute_auth.JsMap.{JsMap, get, set, delete, delete_where, values, find_value}
use absolute_auth.Crypto.Totp.{Runtime, hash_token, constant_time_equal}

pub record ApiKey : Type 0 where
  pub created_at : ℕ
  pub expires_at : Option ℕ
  pub hashed_key : String
  pub key_id : String
  pub last_used_at : Option ℕ
  pub name : String
  pub owner_id : Option String
  pub prefix : String
  pub scopes : List String

pub record ApiClient : Type 0 where
  pub client_id : String
  pub created_at : ℕ
  pub hashed_secret : String
  pub name : String
  pub owner_id : Option String
  pub scopes : List String

pub record AccessToken : Type 0 where
  pub client_id : String
  pub created_at : ℕ
  pub expires_at : ℕ
  pub hashed_token : String
  pub owner_id : Option String
  pub scopes : List String
  pub token_id : String

-- createInMemoryAccessTokenStore
unfoldable pub delete_expired : ℕ → JsMap AccessToken → JsMap AccessToken
delete_expired now m = delete_where (λ token. leb token.expires_at now) m

unfoldable pub delete_token : String → JsMap AccessToken → JsMap AccessToken
delete_token token_id m = delete token_id m

unfoldable pub find_by_hashed_token : String → JsMap AccessToken → Option AccessToken
find_by_hashed_token hashed m = find_value (λ token. token.hashed_token == hashed) m

unfoldable pub save_token : AccessToken → JsMap AccessToken → JsMap AccessToken
save_token token m = set token.token_id token m

-- createInMemoryApiClientStore
unfoldable pub delete_client : String → JsMap ApiClient → JsMap ApiClient
delete_client client_id m = delete client_id m

unfoldable pub find_client : String → JsMap ApiClient → Option ApiClient
find_client client_id m = get client_id m

unfoldable pub list_clients : Option String → JsMap ApiClient → List ApiClient
list_clients owner_id m =
    sort_descending (λ client. client.created_at)
      (filter (λ client. owner_id == none || client.owner_id == owner_id) (values m))

unfoldable pub save_client : ApiClient → JsMap ApiClient → JsMap ApiClient
save_client client m = set client.client_id client m

-- createInMemoryApiKeyStore
unfoldable pub delete_key : String → JsMap ApiKey → JsMap ApiKey
delete_key key_id m = delete key_id m

unfoldable pub find_by_hashed_key : String → JsMap ApiKey → Option ApiKey
find_by_hashed_key hashed m = find_value (λ key. key.hashed_key == hashed) m

unfoldable pub list_keys : Option String → JsMap ApiKey → List ApiKey
list_keys owner_id m =
    sort_descending (λ key. key.created_at)
      (filter (λ key. owner_id == none || key.owner_id == owner_id) (values m))

unfoldable pub save_key : ApiKey → JsMap ApiKey → JsMap ApiKey
save_key key m = set key.key_id key m

touched : ℕ → String → Option ApiKey → JsMap ApiKey → JsMap ApiKey
touched last_used_at key_id none m = m
touched last_used_at key_id (some existing) m =
    set key_id (record existing { last_used_at = some last_used_at }) m

unfoldable pub touch_key : String → ℕ → JsMap ApiKey → JsMap ApiKey
unfolding touched
touch_key key_id last_used_at m = touched last_used_at key_id (get key_id m) m

-- generateToken, over the random text that it draws
unfoldable pub generate_token : String → String → String
generate_token prefix random = prefix +++ random

no_scopes : Option (List String) → List String
no_scopes none = []
no_scopes (some scopes) = scopes

-- The client id, the secret and the record that createApiClient returns.
unfoldable pub create_api_client :
    Runtime
    → (uuid random : String) → ℕ
    → (name : String) → (owner_id : Option String) → (scopes : Option (List String))
    → JsMap ApiClient
    → String × String × ApiClient × JsMap ApiClient
unfolding generate_token no_scopes save_client
create_api_client runtime uuid random now name owner_id scopes m =
    let client_secret = generate_token "cs_" random in
    let client : ApiClient = record {
      client_id = "cid_" +++ uuid;
      created_at = now;
      hashed_secret = hash_token runtime client_secret;
      name = name;
      owner_id = owner_id;
      scopes = no_scopes scopes;
    } in
    ("cid_" +++ uuid, client_secret, client, save_client client m)

unfoldable pub create_api_key :
    Runtime
    → (uuid random : String) → ℕ
    → (expires_at : Option ℕ) → (name : String) → (owner_id : Option String)
    → (scopes : Option (List String)) → JsMap ApiKey
    → String × ApiKey × JsMap ApiKey
unfolding generate_token no_scopes save_key
create_api_key runtime uuid random now expires_at name owner_id scopes m =
    let key = generate_token "sk_" random in
    let record_ : ApiKey = record {
      created_at = now;
      expires_at = expires_at;
      hashed_key = hash_token runtime key;
      key_id = uuid;
      last_used_at = none;
      name = name;
      owner_id = owner_id;
      prefix = slice key 0 11;
      scopes = no_scopes scopes;
    } in
    (key, record_, save_key record_ m)
