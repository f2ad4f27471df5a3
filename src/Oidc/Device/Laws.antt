-- ===== src/Oidc/Device/Laws.antt =====
-- A device code buys tokens once, after an approval, for its own client and before it expires; a
-- decision on it is final.
use absolute_auth.Prelude.{
  ℕ, String, ◌≡◌, refl, ◌≤◌, Bool, Option, none, some, [], ◌∷◌, ◌==◌, string_eq, arith, eq_iff,
  Option-cases, inl, inr,
}
use absolute_auth.JsMap.{get}
use absolute_auth.JsMap.Laws.{get-delete}
use absolute_auth.Oidc.Types.{DeviceAuthorization, Status, approved, denied, pending}
use absolute_auth.Oidc.Provider.{Config, Primitives, Fresh}
use absolute_auth.Oidc.Stores.{Stores}
use absolute_auth.Oidc.Tokens.{TokenSet}
use absolute_auth.Oidc.Device.{
  Store, minted, invalid_grant, exchange_device_code, exchange_found, exchange_decided, mint,
  delete_by_device_code_hash, exchange_in, find_by_device_code_hash,
}

-- What the store holds when an exchange of the code's hash mints tokens.
pub record Redeemable (s : Stores) (now : ℕ) (client_id hash : String) : Type 0 where
  pub store : Store
  pub authorization : DeviceAuthorization
  pub sub : String
  pub configured : s.devices ≡ some store
  pub stored : get hash store ≡ some authorization
  pub own : authorization.client_id ≡ client_id
  pub alive : now ≤ authorization.expires_at
  pub granted : authorization.status ≡ approved
  pub bound : authorization.user_sub ≡ some sub

module _ (prim : Primitives) (cfg : Config) (now : ℕ) (fresh : Fresh) (client_id : String)
    (jkt : Option String) where
  decided_mints :
      (hash : String) (a : DeviceAuthorization) (st : Status) (sub : Option String) (m : Store)
      (s s' : Stores) (t : TokenSet)
      → exchange_decided prim cfg now fresh client_id hash jkt a st sub m s ≡ (minted t, s')
      → (st ≡ approved)
        × ((u : String) × (sub ≡ some u))
        × (s'.devices ≡ some (delete_by_device_code_hash hash m))
  unfolding exchange_decided mint
  decided_mints hash a pending sub m s s' t e = ground arith
  decided_mints hash a denied sub m s s' t e = ground arith
  decided_mints hash a approved none m s s' t e = ground arith
  decided_mints hash a approved (some u) m s s' t e = (refl, (u, refl), ground arith)

  found_guards :
      (hash : String) (a : DeviceAuthorization) (m : Store) (s s' : Stores) (t : TokenSet)
      → exchange_found prim cfg now fresh client_id hash jkt (some a) m s ≡ (minted t, s')
      → (a.client_id ≡ client_id)
        × (now ≤ a.expires_at)
        × (exchange_decided prim cfg now fresh client_id hash jkt a a.status a.user_sub m s
            ≡ (minted t, s'))
  unfolding exchange_found
  found_guards hash a m s s' t e = ground (arith, eq_iff a.client_id client_id)

  -- The rest of the code's record, and the device store that is left.
  in_store_mints :
      (hash : String) (o : Option Store) (s s' : Stores) (t : TokenSet)
      → s.devices ≡ o
      → exchange_in prim cfg now fresh client_id hash jkt o s ≡ (minted t, s')
      → Redeemable s now client_id hash
        × ((m : Store) × (s'.devices ≡ some (delete_by_device_code_hash hash m)))
  unfolding exchange_in find_by_device_code_hash
  in_store_mints hash none s s' t d e = ground arith
  in_store_mints hash (some m) s s' t d e = elim (Option-cases (get hash m)) [
    | inl absent ↦ cc (rw absent at e)
    | inr (a, held) ↦
        let (own, alive, rest) = found_guards hash a m s s' t (rw held at e) in
        let (granted, (u, bound), left) = decided_mints hash a a.status a.user_sub m s s' t rest in
        (
          record {
            store = m;
            authorization = a;
            sub = u;
            configured = d;
            stored = held;
            own = own;
            alive = alive;
            granted = granted;
            bound = bound;
          },
          (m, left),
        )
  ]

  -- An exchange that mints tokens finds an unexpired record of the code, of the presenting client,
  -- approved and bound to a user; and whatever exchange of the code comes next, by any client at
  -- any time, is refused.
  pub device_code_redeemed_once :
      (now' : ℕ) (fresh' : Fresh) (client_id' : String) (jkt' : Option String) (code : String)
      (s s' : Stores) (t : TokenSet)
      → exchange_device_code prim cfg now fresh client_id code jkt s ≡ (minted t, s')
      → Redeemable s now client_id (prim.hash_token code)
        × (exchange_device_code prim cfg now' fresh' client_id' code jkt' s' ≡ (invalid_grant, s'))
  unfolding exchange_device_code exchange_found delete_by_device_code_hash
  device_code_redeemed_once now' fresh' client_id' jkt' code s s' t e =
      let (redeemable, (m, left)) = in_store_mints (prim.hash_token code) s.devices s s' t refl e in
      (
        redeemable,
        ground (
          arith,
          left,
          get-delete (prim.hash_token code) (prim.hash_token code) m,
          eq_iff (prim.hash_token code) (prim.hash_token code),
        ),
      )

-- Every record stands under its own hash.
abbrev pub IsKeyed : Store → Type 0
IsKeyed [] = Unit
IsKeyed ((k, a) ∷ m) = (k ≡ a.device_code_hash) × IsKeyed m

abbrev has_user_code : String → DeviceAuthorization → Bool
has_user_code user_code a = a.user_code == user_code

-- The record that a decision leaves.
abbrev after : Status → Option String → DeviceAuthorization → DeviceAuthorization
after st sub a = record a { status = st; user_sub = sub }
