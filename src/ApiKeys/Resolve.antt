-- ===== src/ApiKeys/Resolve.antt =====
-- hasScopes, verifyAccessToken, verifyApiKey and resolveApiPrincipal (src/apikeys/config.ts).
use Prim.Native.String.{slice, len}
use text.Mathlib.Text.{starts_with}
use absolute_auth.Prelude.{
  ℕ, String, Bool, false, not, Option, none, some, List, ◌==◌, string_eq, option_string_eq, leb,
  if◌then◌else◌, includes, any,
}
use absolute_auth.JsMap.{JsMap}
use absolute_auth.Crypto.Totp.{Runtime, hash_token}
use absolute_auth.ApiKeys.{ApiKey, AccessToken, find_by_hashed_token, find_by_hashed_key, touch_key}

pub data Kind : Type 0 where
  access_token api_key : Kind

pub record ApiPrincipal : Type 0 where
  pub id : String
  pub kind : Kind
  pub owner_id : Option String
  pub scopes : List String

unfoldable pub has_scopes : Option ApiPrincipal → List String → Bool
has_scopes none required = false
has_scopes (some principal) required =
    not (any (λ scope. not (includes scope principal.scopes)) required)

alive : ℕ → Option AccessToken → Option AccessToken
alive now none = none
alive now (some token) = if leb token.expires_at now then none else some token

unfoldable pub verify_access_token : Runtime → String → ℕ → JsMap AccessToken → Option AccessToken
unfolding alive find_by_hashed_token
verify_access_token runtime presented now m =
    alive now (find_by_hashed_token (hash_token runtime presented) m)

expired : ℕ → Option ℕ → Bool
expired now none = false
expired now (some expires_at) = leb expires_at now

key_found : ℕ → Option ApiKey → JsMap ApiKey → Option ApiKey × JsMap ApiKey
unfolding expired touch_key
key_found now none m = (none, m)
key_found now (some key) m =
    if expired now key.expires_at then (none, m) else (some key, touch_key key.key_id now m)

unfoldable pub verify_api_key : Runtime → String → ℕ → JsMap ApiKey → Option ApiKey × JsMap ApiKey
unfolding key_found find_by_hashed_key
verify_api_key runtime presented now m =
    key_found now (find_by_hashed_key (hash_token runtime presented) m) m

-- The token after "Bearer ".
unfoldable pub read_bearer_token : (String → String) → Option String → Option String
read_bearer_token trim none = none
read_bearer_token trim (some authorization) =
    if starts_with authorization "Bearer "
    then (let token = trim (slice authorization 7 (len authorization)) in
        if token == "" then none else some token)
    else none

of_token : Option AccessToken → Option ApiPrincipal
of_token none = none
of_token (some token) = some (record {
  id = token.client_id;
  kind = access_token;
  owner_id = token.owner_id;
  scopes = token.scopes;
})

of_key : Option ApiKey → Option ApiPrincipal
of_key none = none
of_key (some key) =
    some (record { id = key.key_id; kind = api_key; owner_id = key.owner_id; scopes = key.scopes })

-- The two stores, where they are configured.
pub record Stores : Type 0 where
  pub access_tokens : Option (JsMap AccessToken)
  pub api_keys : Option (JsMap ApiKey)

by_key : Runtime → String → ℕ → Option (JsMap ApiKey) → Stores → Option ApiPrincipal × Stores
unfolding verify_api_key of_key
by_key runtime presented now none s = (none, s)
by_key runtime presented now (some keys) s =
    if starts_with presented "sk_"
    then (let (key, keys') = verify_api_key runtime presented now keys in
        (of_key key, record s { api_keys = some keys' }))
    else (none, s)

by_token : Runtime → String → ℕ → Option (JsMap AccessToken) → Stores → Option ApiPrincipal × Stores
unfolding verify_access_token of_token by_key
by_token runtime presented now none s = by_key runtime presented now s.api_keys s
by_token runtime presented now (some tokens) s =
    if starts_with presented "at_"
    then (of_token (verify_access_token runtime presented now tokens), s)
    else by_key runtime presented now s.api_keys s

presented_or : Option String → Option String → Option String
presented_or none key = key
presented_or (some token) key = some token

resolve_presented : Runtime → Option String → ℕ → Stores → Option ApiPrincipal × Stores
unfolding by_token
resolve_presented runtime none now s = (none, s)
resolve_presented runtime (some presented) now s =
    if presented == "" then (none, s) else by_token runtime presented now s.access_tokens s

unfoldable pub resolve_api_principal :
    Runtime
    → (trim : String → String) → (key authorization : Option String) → ℕ
    → Stores
    → Option ApiPrincipal × Stores
unfolding resolve_presented presented_or read_bearer_token
resolve_api_principal runtime trim key authorization now s =
    resolve_presented runtime (presented_or (read_bearer_token trim authorization) key) now s
