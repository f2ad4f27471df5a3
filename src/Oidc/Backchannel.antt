-- ===== src/Oidc/Backchannel.antt =====
-- Client-initiated backchannel authentication: its store (createInMemoryBackchannelAuthStore of
-- src/oidc/inMemoryStores.ts) and the operations on it of src/oidc/config.ts.
pub mod Laws
use absolute_auth.Prelude.{
  ℕ, String, Bool, true, false, Option, none, some, List, ◌+◌, ◌-◌, ◌*◌, ◌/◌, ◌==◌, string_eq, ltb,
  if◌then◌else◌,
}
use absolute_auth.JsMap.{JsMap, get, set, delete}
use absolute_auth.Oidc.Types.{
  BackchannelAuthRequest, OauthClient, Status, approved, denied, pending,
}
use absolute_auth.Oidc.Provider.{Config, Primitives, Fresh, get_or, ms_per_second, ms_per_minute}
use absolute_auth.Oidc.Stores.{Stores}
use absolute_auth.Oidc.Tokens.{TokenSet, save_new, issue_token_set}

abbrev pub Store : Type 0
Store = JsMap BackchannelAuthRequest

unfoldable pub delete_by_auth_req_id : String → Store → Store
delete_by_auth_req_id id m = delete id m

unfoldable pub find_by_auth_req_id : String → Store → Option BackchannelAuthRequest
find_by_auth_req_id id m = get id m

unfoldable pub record_poll : String → ℕ → Store → Store
record_poll id polled_at m = elim (get id m) [
  | none ↦ m
  | some r ↦ set id (record r { last_polled_at = some polled_at }) m
]

unfoldable pub save_backchannel_auth : BackchannelAuthRequest → Store → Store
save_backchannel_auth r m = set r.auth_req_id r m

unfoldable pub update_status : String → Status → Option String → Store → Store
update_status id status user_sub m = elim (get id m) [
  | none ↦ m
  | some r ↦ set id (record r { status = status; user_sub = user_sub }) m
]

pub data IssueResult : Type 0 where
  issued : (auth_req_id : String) (expires_in interval : ℕ) → IssueResult
  invalid_request invalid_client unknown_user_id : IssueResult

ten_minutes : ℕ
ten_minutes = 10 * ms_per_minute

-- The hint's user: resolveBackchannelUser's answer for a client that is known.
issue_for :
    Config
    → ℕ
    → (auth_req_id client_id : String) → Option String
    → List String
    → Option String
    → Store
    → IssueResult × Store
unfolding save_backchannel_auth ten_minutes
issue_for cfg now id client_id binding_message scopes none m = (unknown_user_id, m)
issue_for cfg now id client_id binding_message scopes (some sub) m = (
  issued id (get_or cfg.backchannel_auth_ttl_ms ten_minutes / ms_per_second)
      (get_or cfg.backchannel_poll_interval_seconds 5),
  save_backchannel_auth
      (record {
        auth_req_id = id;
        binding_message = binding_message;
        client_id = client_id;
        created_at = now;
        expires_at = now + get_or cfg.backchannel_auth_ttl_ms ten_minutes;
        interval_seconds = get_or cfg.backchannel_poll_interval_seconds 5;
        last_polled_at = none;
        scopes = scopes;
        status = pending;
        user_sub = some sub;
      })
      m,
)

-- issueBackchannelAuth. `resolve` is resolveBackchannelUser, `client` the registered client; the
-- notification that follows changes no store.
unfoldable pub issue_backchannel_auth :
    Config
    → ℕ
    → (auth_req_id client_id login_hint : String) → Option String
    → List String
    → Option (OauthClient → String → Option String)
    → Option OauthClient
    → Option Store
    → IssueResult × Option Store
unfolding issue_for
issue_backchannel_auth cfg now id client_id hint message scopes resolve client none =
    (invalid_request, none)
issue_backchannel_auth cfg now id client_id hint message scopes none client (some m) =
    (invalid_request, some m)
issue_backchannel_auth cfg now id client_id hint message scopes (some resolve) none (some m) =
    (invalid_client, some m)
issue_backchannel_auth cfg now id client_id hint message scopes (some resolve) (some client)
      (some m) =
    let (result, m') = issue_for cfg now id client_id message scopes (resolve client hint) m in
    (result, some m')

pub data Decision : Type 0 where
  decided already_decided expired_token invalid_auth_req_id not_configured : Decision

unfoldable pub is_pending : Status → Bool
is_pending pending = true
is_pending approved = false
is_pending denied = false

-- a ?? b
or_else : Option String → Option String → Option String
or_else none b = b
or_else (some a) b = some a

decide_record :
    ℕ → String → Status → Option String → Option BackchannelAuthRequest → Store → Decision × Store
unfolding is_pending update_status or_else
decide_record now id status user_sub none m = (invalid_auth_req_id, m)
decide_record now id status user_sub (some r) m =
    if ltb r.expires_at now
    then (expired_token, m)
    else if is_pending r.status
    then (decided, update_status id status (or_else user_sub r.user_sub) m)
    else (already_decided, m)

unfoldable pub decide_backchannel :
    ℕ → String → Status → Option String → Option Store → Decision × Option Store
unfolding decide_record find_by_auth_req_id
decide_backchannel now id status user_sub none = (not_configured, none)
decide_backchannel now id status user_sub (some m) =
    let (result, m') = decide_record now id status user_sub (find_by_auth_req_id id m) m in
    (result, some m')

unfoldable pub approve_backchannel_auth :
    ℕ → String → Option String → Option Store → Decision × Option Store
unfolding decide_backchannel
approve_backchannel_auth now id user_sub m = decide_backchannel now id approved user_sub m

unfoldable pub deny_backchannel_auth : ℕ → String → Option Store → Decision × Option Store
unfolding decide_backchannel
deny_backchannel_auth now id m = decide_backchannel now id denied none m

pub data Exchange : Type 0 where
  minted : TokenSet → Exchange
  access_denied authorization_pending exchange_expired invalid_grant slow_down : Exchange

minted_or : Option TokenSet → Exchange
minted_or none = invalid_grant
minted_or (some t) = minted t

-- record.lastPolledAt !== undefined && now - record.lastPolledAt < intervalSeconds * 1000. A clock
-- that went back makes the difference negative, which is below too.
unfoldable pub too_fast : ℕ → BackchannelAuthRequest → Bool
too_fast now r = elim r.last_polled_at [
  | none ↦ false
  | some polled ↦ ltb now (polled + r.interval_seconds * ms_per_second)
]

mint :
    Primitives
    → Config
    → ℕ
    → Fresh
    → (client_id id : String) → (jkt cert : Option String) → BackchannelAuthRequest
    → (sub : String) → Store
    → Stores
    → Exchange × Stores
unfolding minted_or delete_by_auth_req_id issue_token_set
mint prim cfg now fresh client_id id jkt cert r sub m s =
    let (tokens, refresh') =
      issue_token_set prim cfg now fresh
        (record {
          acr = none;
          audience = none;
          claims = none;
          client_cert_thumbprint = cert;
          client_id = client_id;
          dpop_jkt = jkt;
          family_id = none;
          nonce = none;
          scopes = r.scopes;
          sub = sub;
        })
        save_new s.refresh in
    (
      minted_or tokens,
      record s { refresh = refresh'; backchannel = some (delete_by_auth_req_id id m) },
    )

-- `m` is the store after the poll was recorded.
exchange_decided :
    Primitives
    → Config
    → ℕ
    → Fresh
    → (client_id id : String) → (jkt cert : Option String) → BackchannelAuthRequest
    → Status
    → (sub : Option String) → Store
    → Stores
    → Exchange × Stores
unfolding mint
exchange_decided prim cfg now fresh client_id id jkt cert r pending sub m s =
    (authorization_pending, record s { backchannel = some m })
exchange_decided prim cfg now fresh client_id id jkt cert r denied sub m s =
    (access_denied, record s { backchannel = some m })
exchange_decided prim cfg now fresh client_id id jkt cert r approved none m s =
    (access_denied, record s { backchannel = some m })
exchange_decided prim cfg now fresh client_id id jkt cert r approved (some sub) m s =
    mint prim cfg now fresh client_id id jkt cert r sub m s

exchange_found :
    Primitives
    → Config
    → ℕ
    → Fresh
    → (client_id id : String) → (jkt cert : Option String) → Option BackchannelAuthRequest
    → Store
    → Stores
    → Exchange × Stores
unfolding exchange_decided delete_by_auth_req_id too_fast record_poll
exchange_found prim cfg now fresh client_id id jkt cert none m s = (invalid_grant, s)
exchange_found prim cfg now fresh client_id id jkt cert (some r) m s =
    if r.client_id == client_id
    then (if ltb r.expires_at now
        then (exchange_expired, record s { backchannel = some (delete_by_auth_req_id id m) })
        else (if too_fast now r
            then (slow_down, s)
            else exchange_decided prim cfg now fresh client_id id jkt cert r r.status r.user_sub
                (record_poll id now m) s))
    else (invalid_grant, s)

exchange_in :
    Primitives
    → Config
    → ℕ
    → Fresh
    → (client_id id : String) → (jkt cert : Option String) → Option Store
    → Stores
    → Exchange × Stores
unfolding exchange_found find_by_auth_req_id
exchange_in prim cfg now fresh client_id id jkt cert none s = (invalid_grant, s)
exchange_in prim cfg now fresh client_id id jkt cert (some m) s =
    exchange_found prim cfg now fresh client_id id jkt cert (find_by_auth_req_id id m) m s

-- exchangeBackchannelAuth
unfoldable pub exchange_backchannel_auth :
    Primitives
    → Config
    → ℕ
    → Fresh
    → (client_id auth_req_id : String) → (jkt cert : Option String) → Stores
    → Exchange × Stores
unfolding exchange_in
exchange_backchannel_auth prim cfg now fresh client_id id jkt cert s =
    exchange_in prim cfg now fresh client_id id jkt cert s.backchannel s
