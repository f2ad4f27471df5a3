-- ===== src/ApiKeys/Tests.antt =====
-- A client, its token, and the requests that present it.
use absolute_auth.Prelude.{
  ℕ, ◌≡◌, refl, String, Option, none, some, List, [], ◌∷◌, leb, if◌then◌else◌, includes, arith,
}
use absolute_auth.JsMap.{JsMap, get}
use absolute_auth.Crypto.Totp.{Runtime, constant_time_equal}
use absolute_auth.ApiKeys.{ApiClient, AccessToken}
use absolute_auth.ApiKeys.Exchange.{
  Mint, ClientCredentialsResult, granted, invalid_client, invalid_scope,
  exchange_client_credentials,
}
use absolute_auth.ApiKeys.Resolve.{access_token, resolve_api_principal}
use absolute_auth.Crypto.Window.{IsDigest}
use absolute_auth.ApiKeys.Laws.{Granted, exchange_sound, minted_token_resolves}

abbrev runtime : Runtime
runtime = record {
  hmac_sha1 = λ k m. 0 ∷ m;
  sha256 = λ t. 1 ∷ [];
  to_upper_case = λ t. t;
  base64url = λ b. "digest";
}

abbrev client : ApiClient
client = record {
  client_id = "cid_1";
  created_at = 0;
  hashed_secret = "digest";
  name = "worker";
  owner_id = none;
  scopes = "read" ∷ "write" ∷ [];
}

abbrev clients : JsMap ApiClient
clients = ("cid_1", client) ∷ []

abbrev mint : Mint
mint = record { random = "abc"; uuid = "t1"; now = 100; ttl_ms = 5000 }

abbrev run : Option (List String) → ClientCredentialsResult × JsMap AccessToken
run requested = exchange_client_credentials runtime clients "cid_1" "secret" mint requested []

runtime-IsDigest : IsDigest runtime.sha256
runtime-IsDigest = record { bytes = λ t. (omega arith, tt); size = λ t u. refl }

exchange_sound_example :
    ((token : String) (expires_in : ℕ) (scopes : List String)
      → (run (some ("read" ∷ []))).0 ≡ granted token expires_in scopes
      → Granted runtime clients "cid_1" "secret" mint
          (some ("read" ∷ []))
          token
          scopes
          (run (some ("read" ∷ []))).1)
    × ((run (some ("read" ∷ []))).0 ≡ invalid_client → (run (some ("read" ∷ []))).1 ≡ [])
    × ((run (some ("read" ∷ []))).0 ≡ invalid_scope → (run (some ("read" ∷ []))).1 ≡ [])
exchange_sound_example =
    exchange_sound runtime clients "cid_1" "secret" mint (some ("read" ∷ [])) [] runtime-IsDigest

granted_read : (run (some ("read" ∷ []))).0 ≡ granted "at_abc" 5 ("read" ∷ [])
unfolding get exchange_client_credentials constant_time_equal includes
granted_read = refl

refused_admin : (run (some ("admin" ∷ []))).0 ≡ invalid_scope
unfolding get exchange_client_credentials constant_time_equal includes
refused_admin = refl

minted_token_resolves_example :
    (resolve_api_principal runtime
      (λ t. t)
      none
      (some "Bearer at_abc")
      200
      (record { access_tokens = some (run (some ("read" ∷ []))).1; api_keys = none })).0
    ≡ (if leb 5100 200
        then none
        else some
            (record { id = "cid_1"; kind = access_token; owner_id = none; scopes = "read" ∷ [] }))
unfolding get
minted_token_resolves_example =
    minted_token_resolves runtime clients client "cid_1" "secret" mint (some ("read" ∷ [])) []
      (λ t. t) none none 200 "at_abc" 5 ("read" ∷ []) refl granted_read tt refl
