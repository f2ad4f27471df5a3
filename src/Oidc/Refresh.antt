-- ===== src/Oidc/Refresh.antt =====
-- The refresh-token store (createInMemoryOidcRefreshTokenStore of src/oidc/inMemoryStores.ts, with
-- toRefreshFamily of src/oidc/refreshFamilies.ts). The object of a family is mutated in place:
-- `update_first` writes to the family that the search for it returned.
pub mod Validity
pub mod Reuse
pub mod Preserved
pub mod Steps
use absolute_auth.Prelude.{
  ℕ, String, Bool, true, false, not, ◌&&◌, Option, none, some, List, [], ◌∷◌, map, ◌==◌, string_eq,
  leb, ltb, if◌then◌else◌, filter, includes, add, unique, sort_descending,
}
use Prim.Native.String.{◌++◌}
use absolute_auth.JsMap.{
  JsMap, get, set, delete, values, delete_where, count_where, find_value, update_first,
}
use absolute_auth.Oidc.Types.{RefreshToken, RefreshTokenFamily}

-- One grant: its current token, the hashes that rotation has used up, and whether it is revoked.
pub record Family : Type 0 where
  pub consumed : List String
  pub revoked : Bool
  pub token : RefreshToken

abbrev pub Store : Type 0
Store = JsMap Family

unfoldable pub to_refresh_family : RefreshToken → RefreshTokenFamily
to_refresh_family token = record {
  audience = token.audience;
  client_id = token.client_id;
  expires_at = token.expires_at;
  family_id = token.family_id;
  issued_at = token.created_at;
  scopes = token.scopes;
  user_id = token.user_id;
}

-- The tests of the loops activeForHash and familyForConsumedHash.
unfoldable pub is_active_for : String → Family → Bool
is_active_for token_hash family = not family.revoked && family.token.token_hash == token_hash

unfoldable pub has_consumed : String → Family → Bool
unfolding includes
has_consumed token_hash family = includes token_hash family.consumed

unfoldable pub active_for_hash : String → Store → Option Family
active_for_hash token_hash families = find_value (is_active_for token_hash) families

unfoldable pub family_for_consumed_hash : String → Store → Option Family
family_for_consumed_hash token_hash families = find_value (has_consumed token_hash) families

-- family.revoked = true
unfoldable pub revoke : Family → Family
revoke family = record family { revoked = true }

-- family.consumed.add(hash); family.token = { ...replacement }
unfoldable pub replace : String → RefreshToken → Family → Family
unfolding add
replace current_hash replacement family = record family {
  consumed = add current_hash family.consumed;
  token = replacement;
}

drop_found : Option Family → Store → Option RefreshToken × Store
drop_found none families = (none, families)
drop_found (some family) families = (some family.token, delete family.token.family_id families)

-- a ?? b
or_else : Option Family → Option Family → Option Family
or_else none b = b
or_else (some a) b = some a

unfoldable pub consume_token : String → Store → Option RefreshToken × Store
unfolding drop_found or_else active_for_hash family_for_consumed_hash
consume_token token_hash families =
    drop_found
      (or_else (active_for_hash token_hash families) (family_for_consumed_hash token_hash families))
      families

unfoldable pub of_client : String → Family → Bool
of_client client_id family = family.token.client_id == client_id

unfoldable pub of_user : String → Family → Bool
of_user user_id family = family.token.user_id == user_id

unfoldable pub of_user_client : String → String → Family → Bool
of_user_client user_id client_id family =
    family.token.user_id == user_id && family.token.client_id == client_id

unfoldable pub delete_for_client : String → Store → ℕ × Store
delete_for_client client_id families =
    (count_where (of_client client_id) families, delete_where (of_client client_id) families)

unfoldable pub delete_for_user : String → Store → Store
delete_for_user user_id families = delete_where (of_user user_id) families

unfoldable pub delete_for_user_client : String → String → Store → ℕ × Store
delete_for_user_client user_id client_id families = (
  count_where (of_user_client user_id client_id) families,
  delete_where (of_user_client user_id client_id) families,
)

-- !family.revoked && family.token.expiresAt > now
unfoldable pub is_live : ℕ → Family → Bool
is_live now family = not family.revoked && ltb now family.token.expires_at

live_family : ℕ → Option Family → Option RefreshTokenFamily
unfolding to_refresh_family is_live
live_family now none = none
live_family now (some family) =
    if is_live now family then some (to_refresh_family family.token) else none

unfoldable pub get_family : ℕ → String → Store → Option RefreshTokenFamily
unfolding live_family
get_family now family_id families = live_family now (get family_id families)

unfoldable pub token_of : Option Family → Option RefreshToken
token_of none = none
token_of (some family) = some family.token

unfoldable pub get_token : String → Store → Option RefreshToken
unfolding token_of active_for_hash
get_token token_hash families = token_of (active_for_hash token_hash families)

unfoldable pub list_client_ids_for_user : ℕ → String → Store → List String
unfolding is_live of_user unique values
list_client_ids_for_user now user_id families = unique (
    map (λ (family : Family). family.token.client_id)
      (filter (λ family. is_live now family && of_user user_id family) (values families)))

-- A connection is the pair (userId, clientId), kept in a Map under the two joined by a NUL.
connections_from : ℕ → JsMap (String × String) → List Family → JsMap (String × String)
unfolding is_live
connections_from now found [] = found
connections_from now found (family ∷ rest) =
    connections_from now
      (if is_live now family
        then set (family.token.user_id ++ "\0" ++ family.token.client_id)
            (family.token.user_id, family.token.client_id) found
        else found)
      rest

unfoldable pub list_connections : ℕ → Store → List (String × String)
unfolding connections_from values set
list_connections now families = values (connections_from now [] (values families))

-- clientId === undefined || family.token.clientId === clientId
matches_client : Option String → Family → Bool
matches_client none family = true
matches_client (some client_id) family = family.token.client_id == client_id

unfoldable pub list_families : ℕ → String → Option String → Store → List RefreshTokenFamily
unfolding is_live of_user matches_client to_refresh_family values sort_descending
list_families now user_id client_id families =
    sort_descending (λ (family : RefreshTokenFamily). family.issued_at)
      (map (λ (family : Family). to_refresh_family family.token)
        (filter
          (λ family.
            is_live now family && of_user user_id family && matches_client client_id family)
          (values families)))

unfoldable pub revoke_by_consumed_token : String → Store → Bool × Store
unfolding family_for_consumed_hash
revoke_by_consumed_token token_hash families = elim (family_for_consumed_hash token_hash families) [
  | none ↦ (false, families)
  | some family ↦ (true, update_first (has_consumed token_hash) revoke families)
]

drop_owned : String → String → Option Family → Store → Bool × Store
drop_owned user_id family_id none families = (false, families)
drop_owned user_id family_id (some family) families =
    if family.token.user_id == user_id
    then (not family.revoked, delete family_id families)
    else (false, families)

unfoldable pub revoke_family : String → String → Store → Bool × Store
unfolding drop_owned
revoke_family user_id family_id families =
    drop_owned user_id family_id (get family_id families) families

unfoldable pub rotate_token : String → RefreshToken → Store → Bool × Store
unfolding active_for_hash revoke_by_consumed_token
rotate_token current_hash replacement families = elim (active_for_hash current_hash families) [
  | some family ↦
      (true, update_first (is_active_for current_hash) (replace current_hash replacement) families)
  | none ↦ (false, (revoke_by_consumed_token current_hash families).1)
]

unfoldable pub save_token : RefreshToken → Store → Store
save_token token families =
    set token.family_id (record { consumed = []; revoked = false; token = token }) families
