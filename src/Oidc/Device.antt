-- ===== src/Oidc/Device.antt =====
-- The device-authorization flow: its store (createInMemoryDeviceAuthorizationStore of
-- src/oidc/inMemoryStores.ts) and the operations on it of src/oidc/config.ts.
pub mod Laws
use absolute_auth.Prelude.{
  ℕ, String, Bool, true, false, ◌&&◌, Option, none, some, List, ◌+◌, ◌*◌, ◌/◌, ◌==◌, string_eq,
  option_string_eq, ltb, if◌then◌else◌,
}
use absolute_auth.JsMap.{JsMap, get, set, delete, delete_where, count_where, find_value}
use absolute_auth.Oidc.Types.{DeviceAuthorization, Status, approved, denied, pending}
use absolute_auth.Oidc.Provider.{Config, Primitives, Fresh, get_or, ms_per_second, ms_per_minute}
use absolute_auth.Oidc.Stores.{Stores}
use absolute_auth.Oidc.Tokens.{TokenSet, save_new, issue_token_set}

abbrev pub Store : Type 0
Store = JsMap DeviceAuthorization

unfoldable pub delete_by_device_code_hash : String → Store → Store
delete_by_device_code_hash hash m = delete hash m

unfoldable pub of_client : String → DeviceAuthorization → Bool
of_client client_id a = a.client_id == client_id

unfoldable pub of_user_client : String → String → DeviceAuthorization → Bool
of_user_client user_id client_id a = a.user_sub == some user_id && a.client_id == client_id

unfoldable pub delete_for_client : String → Store → ℕ × Store
delete_for_client client_id m =
    (count_where (of_client client_id) m, delete_where (of_client client_id) m)

unfoldable pub delete_for_user_client : String → String → Store → ℕ × Store
delete_for_user_client user_id client_id m = (
  count_where (of_user_client user_id client_id) m,
  delete_where (of_user_client user_id client_id) m,
)

unfoldable pub find_by_device_code_hash : String → Store → Option DeviceAuthorization
find_by_device_code_hash hash m = get hash m

unfoldable pub find_by_user_code : String → Store → Option DeviceAuthorization
find_by_user_code user_code m = find_value (λ a. a.user_code == user_code) m

unfoldable pub save_device_authorization : DeviceAuthorization → Store → Store
save_device_authorization a m = set a.device_code_hash a m

unfoldable pub update_status : String → Status → Option String → Store → Store
update_status hash status user_sub m = elim (get hash m) [
  | none ↦ m
  | some a ↦ set hash (record a { status = status; user_sub = user_sub }) m
]

-- What issueDeviceAuthorization answers; the URL to visit is the issuer's route with the user code.
pub record Issued : Type 0 where
  pub device_code : String
  pub expires_in : ℕ
  pub interval : ℕ
  pub user_code : String

-- Without a store the code throws; the random codes are arguments.
unfoldable pub issue_device_authorization :
    Primitives
    → Config
    → ℕ
    → (device_code user_code : String) → Option String
    → String
    → List String
    → Option Store
    → Option (Issued × Store)
unfolding save_device_authorization
issue_device_authorization prim cfg now device_code user_code audience client_id scopes none = none
issue_device_authorization prim cfg now device_code user_code audience client_id scopes (some m) =
    some (
      record {
        device_code = device_code;
        expires_in = get_or cfg.device_code_ttl_ms (15 * ms_per_minute) / ms_per_second;
        interval = get_or cfg.device_poll_interval_seconds 5;
        user_code = user_code;
      },
      save_device_authorization
          (record {
            audience = audience;
            client_id = client_id;
            created_at = now;
            device_code_hash = prim.hash_token device_code;
            expires_at = now + get_or cfg.device_code_ttl_ms (15 * ms_per_minute);
            interval_seconds = get_or cfg.device_poll_interval_seconds 5;
            scopes = scopes;
            status = pending;
            user_code = user_code;
            user_sub = none;
          })
          m,
    )

pub data Decision : Type 0 where
  decided already_decided expired_token invalid_user_code not_configured : Decision

is_pending : Status → Bool
is_pending pending = true
is_pending approved = false
is_pending denied = false

decide_record : ℕ → Status → Option String → Option DeviceAuthorization → Store → Decision × Store
unfolding is_pending update_status
decide_record now status user_sub none m = (invalid_user_code, m)
decide_record now status user_sub (some a) m =
    if ltb a.expires_at now
    then (expired_token, m)
    else if is_pending a.status
    then (decided, update_status a.device_code_hash status user_sub m)
    else (already_decided, m)

-- decideDeviceAuthorization; the notification that follows an approval changes no store.
unfoldable pub decide_device_authorization :
    ℕ → String → Status → Option String → Option Store → Decision × Option Store
unfolding decide_record find_by_user_code
decide_device_authorization now user_code status user_sub none = (not_configured, none)
decide_device_authorization now user_code status user_sub (some m) =
    let (result, m') = decide_record now status user_sub (find_by_user_code user_code m) m in
    (result, some m')

unfoldable pub approve_device_authorization :
    ℕ → String → String → Option Store → Decision × Option Store
unfolding decide_device_authorization
approve_device_authorization now user_code user_sub m =
    decide_device_authorization now user_code approved (some user_sub) m

unfoldable pub deny_device_authorization : ℕ → String → Option Store → Decision × Option Store
unfolding decide_device_authorization
deny_device_authorization now user_code m = decide_device_authorization now user_code denied none m

pub data Exchange : Type 0 where
  minted : TokenSet → Exchange
  access_denied authorization_pending exchange_expired invalid_grant : Exchange

-- The mint of a new family cannot be refused by its store.
minted_or : Option TokenSet → Exchange
minted_or none = invalid_grant
minted_or (some t) = minted t

mint :
    Primitives
    → Config
    → ℕ
    → Fresh
    → (client_id hash : String) → (dpop_jkt : Option String) → DeviceAuthorization
    → (sub : String) → Store
    → Stores
    → Exchange × Stores
unfolding minted_or delete_by_device_code_hash issue_token_set
mint prim cfg now fresh client_id hash dpop_jkt a sub m s =
    let (tokens, refresh') =
      issue_token_set prim cfg now fresh
        (record {
          acr = none;
          audience = a.audience;
          claims = none;
          client_cert_thumbprint = none;
          client_id = client_id;
          dpop_jkt = dpop_jkt;
          family_id = none;
          nonce = none;
          scopes = a.scopes;
          sub = sub;
        })
        save_new s.refresh in
    (
      minted_or tokens,
      record s { refresh = refresh'; devices = some (delete_by_device_code_hash hash m) },
    )

exchange_decided :
    Primitives
    → Config
    → ℕ
    → Fresh
    → (client_id hash : String) → (dpop_jkt : Option String) → DeviceAuthorization
    → Status
    → (sub : Option String) → Store
    → Stores
    → Exchange × Stores
unfolding mint
exchange_decided prim cfg now fresh client_id hash dpop_jkt a pending sub m s =
    (authorization_pending, s)
exchange_decided prim cfg now fresh client_id hash dpop_jkt a denied sub m s = (access_denied, s)
exchange_decided prim cfg now fresh client_id hash dpop_jkt a approved none m s = (access_denied, s)
exchange_decided prim cfg now fresh client_id hash dpop_jkt a approved (some sub) m s =
    mint prim cfg now fresh client_id hash dpop_jkt a sub m s

exchange_found :
    Primitives
    → Config
    → ℕ
    → Fresh
    → (client_id hash : String) → (dpop_jkt : Option String) → Option DeviceAuthorization
    → Store
    → Stores
    → Exchange × Stores
unfolding exchange_decided delete_by_device_code_hash
exchange_found prim cfg now fresh client_id hash dpop_jkt none m s = (invalid_grant, s)
exchange_found prim cfg now fresh client_id hash dpop_jkt (some a) m s =
    if a.client_id == client_id
    then (if ltb a.expires_at now
        then (exchange_expired, record s { devices = some (delete_by_device_code_hash hash m) })
        else exchange_decided prim cfg now fresh client_id hash dpop_jkt a a.status a.user_sub m s)
    else (invalid_grant, s)

exchange_in :
    Primitives
    → Config
    → ℕ
    → Fresh
    → (client_id hash : String) → (dpop_jkt : Option String) → Option Store
    → Stores
    → Exchange × Stores
unfolding exchange_found find_by_device_code_hash
exchange_in prim cfg now fresh client_id hash dpop_jkt none s = (invalid_grant, s)
exchange_in prim cfg now fresh client_id hash dpop_jkt (some m) s =
    exchange_found prim cfg now fresh client_id hash dpop_jkt (find_by_device_code_hash hash m) m s

-- exchangeDeviceCode
unfoldable pub exchange_device_code :
    Primitives
    → Config
    → ℕ
    → Fresh
    → (client_id device_code : String) → Option String
    → Stores
    → Exchange × Stores
unfolding exchange_in
exchange_device_code prim cfg now fresh client_id device_code dpop_jkt s =
    exchange_in prim cfg now fresh client_id (prim.hash_token device_code) dpop_jkt s.devices s
