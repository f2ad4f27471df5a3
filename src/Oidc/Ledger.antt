-- ===== src/Oidc/Ledger.antt =====
-- The one-use stores of src/oidc/inMemoryStores.ts: the ledger of client-assertion ids, initial
-- access tokens, pushed authorization requests and WebSocket tickets; and the registration tokens,
-- of which a client has one.
pub mod Laws
use Prim.Native.String.{◌++◌}
use absolute_auth.Prelude.{
  ℕ, String, Bool, true, false, Option, none, some, List, [], ◌∷◌, ◌==◌, string_eq, ltb, leb,
  if◌then◌else◌, includes,
}
use absolute_auth.JsMap.{JsMap, get, set, has, delete, delete_where, count_where}
use absolute_auth.Oidc.Types.{PushedAuthorizationRequest, SocketTicket, ClientRegistrationToken}

-- The expiry by `clientId|jti`.
abbrev pub JtiStore : Type 0
JtiStore = JsMap ℕ

unfoldable pub jti_key : String → String → String
jti_key client_id jti = client_id ++ ("|" ++ jti)

unfoldable pub record_if_fresh : ℕ → String → String → ℕ → JtiStore → Bool × JtiStore
unfolding jti_key
record_if_fresh now client_id jti expires_at seen =
    let swept = delete_where (λ expiry. ltb expiry now) seen in
    if has (jti_key client_id jti) swept
    then (false, swept)
    else (true, set (jti_key client_id jti) expires_at swept)

-- The hashes that remain.
remove : String → List String → List String
remove x [] = []
remove x (y ∷ ys) = let rest = remove x ys in if y == x then rest else y ∷ rest

unfoldable pub consume_initial_access_token : String → List String → Bool × List String
unfolding remove includes
consume_initial_access_token token_hash remaining =
    if includes token_hash remaining
    then (true, remove token_hash remaining)
    else (false, remaining)

abbrev pub ParStore : Type 0
ParStore = JsMap PushedAuthorizationRequest

still_valid : ℕ → PushedAuthorizationRequest → Option PushedAuthorizationRequest
still_valid now r = if ltb r.expires_at now then none else some r

consume_found :
    ℕ
    → String
    → Option PushedAuthorizationRequest
    → ParStore
    → Option PushedAuthorizationRequest × ParStore
unfolding still_valid
consume_found now h none m = (none, m)
consume_found now h (some r) m = (still_valid now r, delete h m)

unfoldable pub consume_request :
    ℕ → String → ParStore → Option PushedAuthorizationRequest × ParStore
unfolding consume_found
consume_request now h m = consume_found now h (get h m) m

unfoldable pub save_request : PushedAuthorizationRequest → ParStore → ParStore
save_request r m = set r.request_uri_hash r m

abbrev pub TicketStore : Type 0
TicketStore = JsMap SocketTicket

live_ticket : ℕ → Option SocketTicket → Option SocketTicket
live_ticket now none = none
live_ticket now (some t) = if leb t.expires_at now then none else some t

unfoldable pub consume_ticket : ℕ → String → TicketStore → Option SocketTicket × TicketStore
unfolding live_ticket
consume_ticket now h m = (live_ticket now (get h m), delete h m)

unfoldable pub save_ticket : SocketTicket → TicketStore → TicketStore
save_ticket t m = set t.ticket_hash t m

abbrev pub RegistrationStore : Type 0
RegistrationStore = JsMap ClientRegistrationToken

unfoldable pub is_for_client : String → ClientRegistrationToken → Bool
is_for_client client_id t = t.client_id == client_id

unfoldable pub delete_by_client_id : String → RegistrationStore → RegistrationStore
unfolding is_for_client
delete_by_client_id client_id m = delete_where (is_for_client client_id) m

unfoldable pub delete_registration_for_client : String → RegistrationStore → ℕ × RegistrationStore
unfolding is_for_client
delete_registration_for_client client_id m =
    (count_where (is_for_client client_id) m, delete_where (is_for_client client_id) m)

unfoldable pub find_by_token_hash : String → RegistrationStore → Option ClientRegistrationToken
find_by_token_hash h m = get h m

unfoldable pub save_registration_token :
    ClientRegistrationToken → RegistrationStore → RegistrationStore
unfolding is_for_client
save_registration_token t m = set t.token_hash t (delete_where (is_for_client t.client_id) m)
