-- ===== src/Oidc/Ledger/Laws.antt =====
-- Replay protection of the ledger, single use of the other stores, and one token per client.
use absolute_auth.Prelude.{
  ℕ, String, ◌≡◌, ◌≤◌, true, false, none, some, string_eq, arith, eq_iff, ltb, leb, if◌then◌else◌,
  [], ◌∷◌, List, All, ◌∙◌,
}
use absolute_auth.JsMap.{get, has, set, delete_where}
use absolute_auth.JsMap.Laws.{
  IsMap, get-set, get-delete, get-delete_where, delete_where-IsMap, set-IsMap,
}
use absolute_auth.Oidc.Types.{PushedAuthorizationRequest, SocketTicket, ClientRegistrationToken}
use absolute_auth.Oidc.Ledger.{
  JtiStore, jti_key, record_if_fresh, ParStore, consume_request, consume_found, TicketStore,
  consume_ticket, save_ticket, RegistrationStore, find_by_token_hash, save_registration_token,
  is_for_client,
}

-- One attempt to use an assertion id.
pub record Attempt : Type 0 where
  pub now : ℕ
  pub client_id : String
  pub jti : String
  pub expires_at : ℕ

abbrev pub after : Attempt → JtiStore → JtiStore
after a seen = (record_if_fresh a.now a.client_id a.jti a.expires_at seen).1

-- The ledger after a sequence of attempts.
abbrev pub after_all : List Attempt → JtiStore → JtiStore
after_all [] seen = seen
after_all (a ∷ rest) seen = after_all rest (after a seen)

swept_keeps :
    (now : ℕ) (k : String) (e : ℕ) (seen : JtiStore)
    → IsMap seen
    → now ≤ e
    → get k seen ≡ some e
    → get k (delete_where (λ expiry. ltb expiry now) seen) ≡ some e
swept_keeps now k e seen v alive held =
    get-delete_where (λ expiry. ltb expiry now) k seen v ∙ rw held (ground arith)

attempt_keeps :
    (a : Attempt) (k : String) (e : ℕ) (seen : JtiStore)
    → IsMap seen
    → a.now ≤ e
    → get k seen ≡ some e
    → get k (after a seen) ≡ some e
unfolding record_if_fresh has
attempt_keeps a k e seen v alive held = ground (
  arith,
  swept_keeps a.now k e seen v alive held,
  get-set (jti_key a.client_id a.jti) k a.expires_at
      (delete_where (λ expiry. ltb expiry a.now) seen),
  eq_iff (jti_key a.client_id a.jti) k,
)

attempt-IsMap : (a : Attempt) (seen : JtiStore) → IsMap seen → IsMap (after a seen)
unfolding record_if_fresh
attempt-IsMap a seen v = ground (
  arith,
  delete_where-IsMap (λ expiry. ltb expiry a.now) seen v,
  set-IsMap (jti_key a.client_id a.jti) a.expires_at
      (delete_where (λ expiry. ltb expiry a.now) seen),
)

after_all_keeps :
    (k : String) (e : ℕ) (rest : List Attempt) (seen : JtiStore)
    → IsMap seen
    → All (λ a. a.now ≤ e) rest
    → get k seen ≡ some e
    → (get k (after_all rest seen) ≡ some e) × IsMap (after_all rest seen)
after_all_keeps k e [] seen v alive held = (held, v)
after_all_keeps k e (a ∷ rest) seen v alive held =
    after_all_keeps k e rest (after a seen) (attempt-IsMap a seen v) alive.1
      (attempt_keeps a k e seen v alive.0 held)

held_refused :
    (a : Attempt) (e : ℕ) (seen : JtiStore)
    → IsMap seen
    → a.now ≤ e
    → get (jti_key a.client_id a.jti) seen ≡ some e
    → (record_if_fresh a.now a.client_id a.jti a.expires_at seen).0 ≡ false
unfolding record_if_fresh has
held_refused a e seen v alive held =
    ground (arith, swept_keeps a.now (jti_key a.client_id a.jti) e seen v alive held)

accepted_held :
    (a : Attempt) (seen : JtiStore)
    → (record_if_fresh a.now a.client_id a.jti a.expires_at seen).0 ≡ true
    → get (jti_key a.client_id a.jti) (after a seen) ≡ some a.expires_at
unfolding record_if_fresh
accepted_held a seen h = ground (
  arith,
  get-set (jti_key a.client_id a.jti) (jti_key a.client_id a.jti) a.expires_at
      (delete_where (λ expiry. ltb expiry a.now) seen),
  eq_iff (jti_key a.client_id a.jti) (jti_key a.client_id a.jti),
)

-- Replay protection: once an assertion id is accepted, every further attempt with the same client
-- and id up to its expiry is refused, whatever other attempts up to that time come between.
pub jti_replay_refused :
    (a b : Attempt) (between : List Attempt) (seen : JtiStore)
    → IsMap seen
    → a.client_id ≡ b.client_id
    → a.jti ≡ b.jti
    → All (λ c. c.now ≤ a.expires_at) between
    → b.now ≤ a.expires_at
    → (record_if_fresh a.now a.client_id a.jti a.expires_at seen).0 ≡ true
    → (record_if_fresh b.now b.client_id b.jti b.expires_at (after_all between (after a seen))).0
      ≡ false
jti_replay_refused a b between seen v same_client same_jti quiet alive accepted =
    let kept =
      after_all_keeps (jti_key a.client_id a.jti) a.expires_at between (after a seen)
        (attempt-IsMap a seen v) quiet (accepted_held a seen accepted) in
    held_refused b a.expires_at (after_all between (after a seen)) kept.1 alive
      (rw (← same_client, ← same_jti) kept.0)

-- A pushed request is consumed once and only before it expires: a request that is returned is the
-- stored one and unexpired, and a second consumption finds nothing, also where the first found the
-- request expired.
pub consume_request_once :
    (now now' : ℕ) (h : String) (m : ParStore) (r : PushedAuthorizationRequest)
    → get h m ≡ some r
    → ((consume_request now h m).0 ≡ (if ltb r.expires_at now then none else some r))
      × ((consume_request now' h (consume_request now h m).1).0 ≡ none)
unfolding consume_request consume_found
consume_request_once now now' h m r e = (
  rw (e, consume_request, consume_found),
  rw (e, consume_request, consume_found) (ground (arith, get-delete h h m, eq_iff h h)),
)

-- A saved WebSocket ticket is returned by its first consumption if that comes strictly before its
-- expiry, is not returned at or after it, and never again after a consumption.
pub ticket_used_once :
    (now now' : ℕ) (t : SocketTicket) (m : TicketStore)
    → ((consume_ticket now t.ticket_hash (save_ticket t m)).0
        ≡ (if leb t.expires_at now then none else some t))
      × ((consume_ticket now' t.ticket_hash
            (consume_ticket now t.ticket_hash (save_ticket t m)).1).0
          ≡ none)
unfolding consume_ticket save_ticket
ticket_used_once now now' t m = (
  ground (arith, get-set t.ticket_hash t.ticket_hash t m, eq_iff t.ticket_hash t.ticket_hash),
  ground (
    arith,
    get-delete t.ticket_hash t.ticket_hash (set t.ticket_hash t m),
    eq_iff t.ticket_hash t.ticket_hash,
  ),
)

-- After a client's registration token is saved, it is the only one of the client that can be found.
pub one_registration_token :
    (t u : ClientRegistrationToken) (h : String) (m : RegistrationStore)
    → IsMap m
    → find_by_token_hash h (save_registration_token t m) ≡ some u
    → u.client_id ≡ t.client_id
    → (h ≡ t.token_hash) × (u ≡ t)
unfolding find_by_token_hash save_registration_token
one_registration_token t u h m v e c = ground (
  arith,
  get-set t.token_hash h t (delete_where (is_for_client t.client_id) m),
  get-delete_where (is_for_client t.client_id) h m v,
  eq_iff t.token_hash h,
  eq_iff u.client_id t.client_id,
)
