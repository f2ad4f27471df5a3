-- ===== src/Oidc/Refresh/Steps.antt =====
-- The store over any sequence of its operations: the invariant holds, and a used hash stays dead.
use absolute_auth.Prelude.{
  String, ◌≡◌, ◌≢◌, refl, false, some, none, string_eq, arith, eq_iff, Option-cases, inl, inr,
}
use absolute_auth.JsMap.{find_value}
use absolute_auth.JsMap.Update.{Nowhere, find_value-Nowhere, Nowhere-find_value}
use absolute_auth.JsMap.Preserve
use absolute_auth.Oidc.Types.{RefreshToken}
use absolute_auth.Oidc.Refresh.{
  Family, Store, is_active_for, has_consumed, replace, revoke, get_token, rotate_token,
  revoke_by_consumed_token, consume_token, delete_for_client, delete_for_user,
  delete_for_user_client, revoke_family, save_token, token_of, of_client, of_user, of_user_client,
}
use absolute_auth.Oidc.Refresh.Validity.{owns, IsValid, revoked_inactive}
use absolute_auth.Oidc.Refresh.Reuse.{get_token-rotate_token}
use absolute_auth.Oidc.Refresh.Preserved.{
  Nowhere-Shrunk, Shrunk-IsValid, consume_token-Shrunk, revoke_family-Shrunk,
  revoke_by_consumed_token-IsValid, rotate_token-IsValid, save_token-IsValid,
}

-- One call of the store that does not write a token with the hash `used`. A token that is written
-- has a hash that no family has: hashes are of fresh 256-bit random values.
pub data Step (used : String) : Store → Store → Type 0 where
  consumed : (h : String) (m : Store) → Step used m (consume_token h m).1
  client_deleted : (c : String) (m : Store) → Step used m (delete_for_client c m).1
  user_deleted : (u : String) (m : Store) → Step used m (delete_for_user u m)
  user_client_deleted : (u c : String) (m : Store) → Step used m (delete_for_user_client u c m).1
  reused : (h : String) (m : Store) → Step used m (revoke_by_consumed_token h m).1
  family_revoked : (u i : String) (m : Store) → Step used m (revoke_family u i m).1
  rotated :
      (h : String) (r : RefreshToken) (m : Store)
      → r.token_hash ≢ used
      → Nowhere (owns r.token_hash) m
      → Step used m (rotate_token h r m).1
  saved :
      (t : RefreshToken) (m : Store)
      → t.token_hash ≢ used
      → Nowhere (owns t.token_hash) m
      → Step used m (save_token t m)

pub data Run (used : String) (m : Store) : Store → Type 0 where
  here : Run used m m
  next : {m' m'' : Store} → Run used m m' → Step used m' m'' → Run used m m''

-- Every call of the store keeps its invariant, that each hash belongs to one family at most and no
-- family's current token is among its used ones, where a token that the call writes, if it writes
-- one, has a hash that no family of the store has.
pub Step-IsValid : {used : String} {m m' : Store} → Step used m m' → IsValid m → IsValid m'
unfolding delete_for_client delete_for_user delete_for_user_client
Step-IsValid (consumed h m) v = Shrunk-IsValid m _ (consume_token-Shrunk h m) v
Step-IsValid (client_deleted c m) v = Shrunk-IsValid m _ (inr (inr (of_client c, refl))) v
Step-IsValid (user_deleted u m) v = Shrunk-IsValid m _ (inr (inr (of_user u, refl))) v
Step-IsValid (user_client_deleted u c m) v =
    Shrunk-IsValid m _ (inr (inr (of_user_client u c, refl))) v
Step-IsValid (reused h m) v = revoke_by_consumed_token-IsValid h m v
Step-IsValid (family_revoked u i m) v = Shrunk-IsValid m _ (revoke_family-Shrunk u i m) v
Step-IsValid (rotated h r m other new) v = rotate_token-IsValid h r m new v
Step-IsValid (saved t m other new) v = save_token-IsValid t m new v

-- No active family has the hash.
abbrev IsDead : String → Store → Type 0
IsDead h m = Nowhere (is_active_for h) m

revoked-IsDead :
    (used h : String) (m : Store) → IsDead used m → IsDead used (revoke_by_consumed_token h m).1
unfolding revoke_by_consumed_token
revoked-IsDead used h m d = elim (Option-cases (find_value (has_consumed h) m)) [
  | inl e ↦ rw (e, revoke_by_consumed_token) d
  | inr (f, e) ↦
      rw (e, revoke_by_consumed_token)
        (Preserve.Nowhere-update_first_all (is_active_for used) (has_consumed h) revoke m
          (λ g _. revoked_inactive used g) d)
]

other_inactive :
    (used h : String) (r : RefreshToken) (f : Family)
    → r.token_hash ≢ used
    → is_active_for used (replace h r f) ≡ false
unfolding is_active_for replace
other_inactive used h r f other = ground (arith, eq_iff r.token_hash used)

saved-IsDead :
    (used : String) (t : RefreshToken) (m : Store)
    → t.token_hash ≢ used
    → IsDead used m
    → IsDead used (save_token t m)
unfolding save_token is_active_for
saved-IsDead used t m other d =
    Preserve.Nowhere-set (is_active_for used) t.family_id _ m
      (ground (arith, eq_iff t.token_hash used)) d

IsDead-get_token : (h : String) (m : Store) → get_token h m ≡ none → IsDead h m
unfolding get_token token_of
IsDead-get_token h m e = Nowhere-find_value (is_active_for h) m (ground arith)

get_token-IsDead : (h : String) (m : Store) → IsDead h m → get_token h m ≡ none
unfolding get_token
get_token-IsDead h m d = rw (find_value-Nowhere (is_active_for h) m d)

rotated-IsDead :
    (used h : String) (r : RefreshToken) (m : Store)
    → r.token_hash ≢ used
    → IsDead used m
    → IsDead used (rotate_token h r m).1
unfolding rotate_token
rotated-IsDead used h r m other d = elim (Option-cases (find_value (is_active_for h) m)) [
  | inl e ↦ rw (e, rotate_token) (revoked-IsDead used h m d)
  | inr (f, e) ↦
      rw (e, rotate_token)
        (Preserve.Nowhere-update_first_all (is_active_for used) (is_active_for h) (replace h r) m
          (λ g _. other_inactive used h r g other) d)
]

Step-IsDead : {used : String} {m m' : Store} → Step used m m' → IsDead used m → IsDead used m'
unfolding delete_for_client delete_for_user delete_for_user_client
Step-IsDead {used = used} (consumed h m) d =
    Nowhere-Shrunk (is_active_for used) m _ (consume_token-Shrunk h m) d
Step-IsDead {used = used} (client_deleted c m) d =
    Preserve.Nowhere-delete_where (is_active_for used) (of_client c) m d
Step-IsDead {used = used} (user_deleted u m) d =
    Preserve.Nowhere-delete_where (is_active_for used) (of_user u) m d
Step-IsDead {used = used} (user_client_deleted u c m) d =
    Preserve.Nowhere-delete_where (is_active_for used) (of_user_client u c) m d
Step-IsDead {used = used} (reused h m) d = revoked-IsDead used h m d
Step-IsDead {used = used} (family_revoked u i m) d =
    Nowhere-Shrunk (is_active_for used) m _ (revoke_family-Shrunk u i m) d
Step-IsDead {used = used} (rotated h r m other new) d = rotated-IsDead used h r m other d
Step-IsDead {used = used} (saved t m other new) d = saved-IsDead used t m other d

Run-IsDead : {used : String} {m m' : Store} → Run used m m' → IsDead used m → IsDead used m'
Run-IsDead here d = d
Run-IsDead (next run step) d = Step-IsDead step (Run-IsDead run d)

-- A token that a valid store returned and that was rotated, to one whose hash no family of the store
-- had, is never returned again, whatever calls follow, as long as each token that they write has a hash
-- that no family of the store has at that time and that is not the rotated token's.
pub rotated_stays_dead :
    (h : String) (t r : RefreshToken) (m m' : Store)
    → IsValid m
    → Nowhere (owns r.token_hash) m
    → get_token h m ≡ some t
    → Run h (rotate_token h r m).1 m'
    → get_token h m' ≡ none
rotated_stays_dead h t r m m' valid new held run = get_token-IsDead h m' (
    Run-IsDead run
      (IsDead-get_token h (rotate_token h r m).1 (get_token-rotate_token h t r m valid new held).2))
