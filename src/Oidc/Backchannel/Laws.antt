-- ===== src/Oidc/Backchannel/Laws.antt =====
-- Tokens only for an approved request of the client, once; the poll interval is enforced.
use absolute_auth.Prelude.{
  ℕ, String, ◌≡◌, ◌<◌, refl, ◌≤◌, ◌+◌, ◌*◌, true, false, Option, none, some, string_eq, arith,
  eq_iff, Option-cases, inl, inr,
}
use absolute_auth.JsMap.{get}
use absolute_auth.JsMap.Laws.{get-delete, get-set}
use absolute_auth.Oidc.Types.{BackchannelAuthRequest, Status, approved, denied, pending}
use absolute_auth.Oidc.Provider.{Config, Primitives, Fresh}
use absolute_auth.Oidc.Stores.{Stores}
use absolute_auth.Oidc.Tokens.{TokenSet}
use absolute_auth.Oidc.Backchannel.{
  Store, minted, invalid_grant, slow_down, authorization_pending, exchange_backchannel_auth,
  exchange_found, exchange_decided, exchange_in, find_by_auth_req_id, delete_by_auth_req_id,
  too_fast, mint, record_poll,
}

-- What the store holds when an exchange of the request's id mints tokens.
pub record Redeemable (s : Stores) (now : ℕ) (client_id id : String) : Type 0 where
  pub store : Store
  pub request : BackchannelAuthRequest
  pub sub : String
  pub configured : s.backchannel ≡ some store
  pub stored : get id store ≡ some request
  pub own : request.client_id ≡ client_id
  pub alive : now ≤ request.expires_at
  pub paced : too_fast now request ≡ false
  pub granted : request.status ≡ approved
  pub bound : request.user_sub ≡ some sub

module _ (prim : Primitives) (cfg : Config) (now : ℕ) (fresh : Fresh) (client_id : String)
    (jkt cert : Option String) where
  slowed :
      (id : String) (m : Store) (r : BackchannelAuthRequest) (s : Stores)
      → s.backchannel ≡ some m
      → get id m ≡ some r
      → r.client_id ≡ client_id
      → now ≤ r.expires_at
      → too_fast now r ≡ true
      → exchange_backchannel_auth prim cfg now fresh client_id id jkt cert s ≡ (slow_down, s)
  unfolding exchange_backchannel_auth exchange_found
  slowed id m r s em er own a fast = ground (arith, em, er, own, fast, eq_iff r.client_id client_id)

abbrev polled : ℕ → BackchannelAuthRequest → BackchannelAuthRequest
polled now r = record r { last_polled_at = some now }

get-record_poll :
    (id : String) (now : ℕ) (m : Store) (r : BackchannelAuthRequest)
    → get id m ≡ some r
    → get id (record_poll id now m) ≡ some (polled now r)
unfolding record_poll
get-record_poll id now m r e =
    rw (e, record_poll) (ground (arith, get-set id id (polled now r) m, eq_iff id id))

too_fast-polled :
    (now now' : ℕ) (r : BackchannelAuthRequest)
    → now' < now + r.interval_seconds * 1000
    → too_fast now' (polled now r) ≡ true
unfolding too_fast
too_fast-polled now now' r soon = ground arith

module _ (prim : Primitives) (cfg : Config) (now : ℕ) (fresh : Fresh) (client_id : String)
    (jkt cert : Option String) where
  decided_mints :
      (id : String) (r : BackchannelAuthRequest) (st : Status) (sub : Option String) (m : Store)
      (s s' : Stores) (t : TokenSet)
      → exchange_decided prim cfg now fresh client_id id jkt cert r st sub m s ≡ (minted t, s')
      → (st ≡ approved)
        × ((u : String) × (sub ≡ some u))
        × (s'.backchannel ≡ some (delete_by_auth_req_id id m))
  unfolding exchange_decided mint
  decided_mints id r pending sub m s s' t e = ground arith
  decided_mints id r denied sub m s s' t e = ground arith
  decided_mints id r approved none m s s' t e = ground arith
  decided_mints id r approved (some u) m s s' t e = (refl, (u, refl), ground arith)

  found_guards :
      (id : String) (r : BackchannelAuthRequest) (m : Store) (s s' : Stores) (t : TokenSet)
      → exchange_found prim cfg now fresh client_id id jkt cert (some r) m s ≡ (minted t, s')
      → (r.client_id ≡ client_id)
        × (now ≤ r.expires_at)
        × (too_fast now r ≡ false)
        × (exchange_decided prim cfg now fresh client_id id jkt cert r r.status r.user_sub
              (record_poll id now m)
              s
            ≡ (minted t, s'))
  unfolding exchange_found
  found_guards id r m s s' t e = ground (arith, eq_iff r.client_id client_id)

  in_store_mints :
      (id : String) (o : Option Store) (s s' : Stores) (t : TokenSet)
      → s.backchannel ≡ o
      → exchange_in prim cfg now fresh client_id id jkt cert o s ≡ (minted t, s')
      → Redeemable s now client_id id
        × ((m : Store) × (s'.backchannel ≡ some (delete_by_auth_req_id id m)))
  unfolding exchange_in find_by_auth_req_id
  in_store_mints id none s s' t d e = ground arith
  in_store_mints id (some m) s s' t d e = elim (Option-cases (get id m)) [
    | inl absent ↦ cc (rw absent at e)
    | inr (r, held) ↦
        let (own, alive, paced, rest) = found_guards id r m s s' t (rw held at e) in
        let (granted, (u, bound), left) =
          decided_mints id r r.status r.user_sub (record_poll id now m) s s' t rest in
        (
          record {
            store = m;
            request = r;
            sub = u;
            configured = d;
            stored = held;
            own = own;
            alive = alive;
            paced = paced;
            granted = granted;
            bound = bound;
          },
          (record_poll id now m, left),
        )
  ]

  -- An exchange that mints tokens finds an unexpired request of the presenting client, approved and
  -- bound to a user, polled no faster than its interval; and whatever exchange of the request comes
  -- next, by any client at any time, is refused.
  pub auth_req_redeemed_once :
      (now' : ℕ) (fresh' : Fresh) (client_id' : String) (jkt' cert' : Option String) (id : String)
      (s s' : Stores) (t : TokenSet)
      → exchange_backchannel_auth prim cfg now fresh client_id id jkt cert s ≡ (minted t, s')
      → Redeemable s now client_id id
        × (exchange_backchannel_auth prim cfg now' fresh' client_id' id jkt' cert' s'
            ≡ (invalid_grant, s'))
  unfolding exchange_backchannel_auth exchange_found delete_by_auth_req_id
  auth_req_redeemed_once now' fresh' client_id' jkt' cert' id s s' t e =
      let (redeemable, (m, left)) = in_store_mints id s.backchannel s s' t refl e in
      (redeemable, ground (arith, left, get-delete id id m, eq_iff id id))

  pending_poll :
      (id : String) (m : Store) (r : BackchannelAuthRequest) (s : Stores)
      → s.backchannel ≡ some m
      → get id m ≡ some r
      → r.client_id ≡ client_id
      → r.status ≡ pending
      → now ≤ r.expires_at
      → too_fast now r ≡ false
      → exchange_backchannel_auth prim cfg now fresh client_id id jkt cert s
        ≡ (authorization_pending, record s { backchannel = some (record_poll id now m) })
  unfolding exchange_backchannel_auth exchange_found
  pending_poll id m r s em er own st a paced =
      ground (arith, em, er, own, st, paced, eq_iff r.client_id client_id)

  -- A poll of a pending request that is the client's, unexpired and not too fast, answers
  -- authorization_pending; the next poll before the interval has passed, unexpired too, is told to
  -- slow down, and changes nothing.
  pub fast_poll_slowed :
      (now' : ℕ) (fresh' : Fresh) (jkt' cert' : Option String) (id : String) (m : Store)
      (r : BackchannelAuthRequest) (s : Stores)
      → s.backchannel ≡ some m
      → get id m ≡ some r
      → r.client_id ≡ client_id
      → r.status ≡ pending
      → now ≤ r.expires_at
      → now' ≤ r.expires_at
      → too_fast now r ≡ false
      → now' < now + r.interval_seconds * 1000
      → ((exchange_backchannel_auth prim cfg now fresh client_id id jkt cert s).0
          ≡ authorization_pending)
        × (exchange_backchannel_auth prim cfg now' fresh' client_id id jkt' cert'
              (exchange_backchannel_auth prim cfg now fresh client_id id jkt cert s).1
            ≡ (slow_down, (exchange_backchannel_auth prim cfg now fresh client_id id jkt cert s).1))
  fast_poll_slowed now' fresh' jkt' cert' id m r s em er own st a a' paced soon =
      rw (pending_poll id m r s em er own st a paced) (
        refl,
        slowed prim cfg now' fresh' client_id jkt' cert' id (record_poll id now m) (polled now r)
            (record s { backchannel = some (record_poll id now m) }) refl
            (get-record_poll id now m r er) own a' (too_fast-polled now now' r soon),
      )
