-- ===== src/Sessions/Cleanup.antt =====
-- performStoreCleanup (src/session/cleanup.ts) on the in-memory store, which has no deleteExpired. Both
-- maps are swept in the same way; what onSessionCleanup is called with is the result.
use absolute_auth.Prelude.{
  ℕ, ◌-◌, zero, suc, String, Bool, not, Option, none, some, List, [], ◌∷◌, leb, if◌then◌else◌,
  filter, length,
}
use absolute_auth.JsMap.{JsMap, get, set, delete}
use absolute_auth.Sessions.{SessionData, UnregisteredSessionData, AuthSessionStore, keys}

module _ {V : Type 0} where
  with_value : String → Option V → JsMap V → JsMap V
  with_value id none rest = rest
  with_value id (some v) rest = (id, v) ∷ rest

  -- What loadStoreSessions and loadStoreUnregisteredSessions read.
  unfoldable pub load_entries : List String → JsMap V → JsMap V
  unfolding with_value get
  load_entries [] m = []
  load_entries (id ∷ ids) m = with_value id (get id m) (load_entries ids m)

  unfoldable pub remove_each : JsMap V → JsMap V → JsMap V
  unfolding delete
  remove_each [] m = m
  remove_each ((id, v) ∷ es) m = remove_each es (delete id m)

  unfoldable pub set_each : JsMap V → JsMap V → JsMap V
  unfolding set
  set_each [] removed = removed
  set_each ((id, v) ∷ es) removed = set_each es (set id v removed)

  unfoldable pub take : ℕ → JsMap V → JsMap V
  take zero es = []
  take (suc n) [] = []
  take (suc n) (e ∷ es) = e ∷ take n es

module _ {V : Type 0} (expires_at : V → ℕ) where
  insert : String × V → JsMap V → JsMap V
  insert e [] = e ∷ []
  insert e (f ∷ es) = if leb (expires_at e.1) (expires_at f.1) then e ∷ f ∷ es else f ∷ insert e es

  -- .sort(([, left], [, right]) => left.expiresAt - right.expiresAt)
  unfoldable pub sort_by_expiry : JsMap V → JsMap V
  unfolding insert
  sort_by_expiry [] = []
  sort_by_expiry (e ∷ es) = insert e (sort_by_expiry es)

  unfoldable pub select_overflow : JsMap V → ℕ → JsMap V
  unfolding take sort_by_expiry
  select_overflow remaining max_sessions =
      if leb (length remaining) max_sessions
      then []
      else take (length remaining - max_sessions) (sort_by_expiry remaining)

  -- expiresAt >= now
  unfoldable pub is_fresh : ℕ → V → Bool
  is_fresh now v = leb now (expires_at v)

  -- The entries that stay for now, and what is removed of the rest: the removed entries, the map.
  unfoldable pub sweep : ℕ → ℕ → JsMap V → JsMap V × JsMap V
  unfolding load_entries remove_each set_each select_overflow is_fresh keys
  sweep max_sessions now m =
      let entries = load_entries (keys m) m in
      let remaining = filter (λ e. is_fresh now e.1) entries in
      let expired = filter (λ e. not (is_fresh now e.1)) entries in
      let overflow = select_overflow remaining max_sessions in
      (set_each overflow (set_each expired []), remove_each overflow (remove_each expired m))

pub record Removed (U : Type 0) : Type 0 where
  pub removed_session_count : ℕ
  pub removed_sessions : JsMap (SessionData U)
  pub removed_unregistered_session_count : ℕ
  pub removed_unregistered_sessions : JsMap UnregisteredSessionData

unfoldable pub perform_store_cleanup :
    {U : Type 0} → ℕ → ℕ → AuthSessionStore U → Removed U × AuthSessionStore U
unfolding sweep
perform_store_cleanup max_sessions now store =
    let (removed, sessions) = sweep (λ v. v.expires_at) max_sessions now store.sessions in
    let (removed_unregistered, unregistered) =
      sweep (λ v. v.expires_at) max_sessions now store.unregistered_sessions in
    (
      record {
        removed_session_count = length removed;
        removed_sessions = removed;
        removed_unregistered_session_count = length removed_unregistered;
        removed_unregistered_sessions = removed_unregistered;
      },
      record { sessions = sessions; unregistered_sessions = unregistered },
    )
