-- ===== src/Sessions/Swept.antt =====
-- What a cleanup keeps of the sessions of a store.
use absolute_auth.Prelude.{
  ℕ, ◌≡◌, ◌≤◌, String, Bool, true, false, not, ◌&&◌, Option, none, some, List, [], ◌∷◌, ◌==◌,
  string_eq, if◌then◌else◌, filter, includes, any, length, arith, eq_iff, refl,
}
use absolute_auth.JsMap.{JsMap, get, delete}
use absolute_auth.JsMap.Laws.{get-delete}
use absolute_auth.Sessions.{
  SessionData, UnregisteredSessionData, AuthSessionStore, get_session, get_unregistered_session,
  keys,
}
use absolute_auth.Sessions.Cleanup.{
  load_entries, remove_each, select_overflow, is_fresh, sweep, perform_store_cleanup,
}

module _ {V : Type 0} where
  listed : String → JsMap V → Bool
  listed id es = any (λ e. e.0 == id) es

  satisfies : (V → Bool) → Option V → Bool
  satisfies p none = false
  satisfies p (some v) = p v

  get-remove_each :
      (id : String) (es m : JsMap V)
      → get id (remove_each es m) ≡ (if listed id es then none else get id m)
  unfolding listed remove_each
  get-remove_each id [] m = refl
  get-remove_each id ((j, v) ∷ es) m =
      ground (arith, get-remove_each id es (delete j m), get-delete j id m)

  listed-filter :
      (p : V → Bool) (id : String) (ids : List String) (m : JsMap V)
      → listed id (filter (λ e. p e.1) (load_entries ids m))
        ≡ (includes id ids && satisfies p (get id m))
  unfolding listed load_entries includes satisfies
  listed-filter p id [] m = refl
  listed-filter p id (j ∷ ids) m = ground (arith, listed-filter p id ids m, eq_iff j id)

  pub get-includes :
      (id : String) (m : JsMap V) (v : V) → get id m ≡ some v → includes id (keys m) ≡ true
  unfolding get keys includes
  get-includes id [] v h = ground (arith, h)
  get-includes id ((j, w) ∷ m) v h = ground (arith, h, get-includes id m v)

  -- The entries that a cleanup loads and that have not expired.
  abbrev pub Remaining : (V → ℕ) → ℕ → JsMap V → JsMap V
  Remaining expires_at now m = filter (λ e. is_fresh expires_at now e.1) (load_entries (keys m) m)

  module _ (expires_at : V → ℕ) (max_sessions now : ℕ) (id : String) (m : JsMap V) (v : V) where
    sweep-get :
        get id (sweep expires_at max_sessions now m).1 ≡ some v
        → (get id m ≡ some v) × (now ≤ expires_at v)
    unfolding sweep is_fresh satisfies
    sweep-get h =
        let expired = filter (λ e. not (is_fresh expires_at now e.1)) (load_entries (keys m) m) in
        let overflow = select_overflow expires_at (Remaining expires_at now m) max_sessions in
        let a = get-remove_each id overflow (remove_each expired m) in
        let b = get-remove_each id expired m in
        let c = listed-filter (λ w. not (is_fresh expires_at now w)) id (keys m) m in
        ground (arith, h, a, b, c, get-includes id m v)

    fresh-get :
        length (Remaining expires_at now m) ≤ max_sessions
        → get id m ≡ some v
        → now ≤ expires_at v
        → get id (sweep expires_at max_sessions now m).1 ≡ some v
    unfolding sweep is_fresh satisfies select_overflow remove_each
    fresh-get l h fresh =
        let expired = filter (λ e. not (is_fresh expires_at now e.1)) (load_entries (keys m) m) in
        let b = get-remove_each id expired m in
        let c = listed-filter (λ w. not (is_fresh expires_at now w)) id (keys m) m in
        ground (arith, l, h, fresh, b, c)

-- A session or a pending one that is read after a cleanup was there before it and has not expired;
-- a session that has not expired is still there, where at most the allowed number remained.
pub cleanup_sound :
    {U : Type 0} (max_sessions now : ℕ) (id : String) (s : AuthSessionStore U) (v : SessionData U)
    (w : UnregisteredSessionData)
    → (get_session id (perform_store_cleanup max_sessions now s).1 ≡ some v
        → (get_session id s ≡ some v) × (now ≤ v.expires_at))
      × (get_unregistered_session id (perform_store_cleanup max_sessions now s).1 ≡ some w
          → (get_unregistered_session id s ≡ some w) × (now ≤ w.expires_at))
      × (length (Remaining (λ x. x.expires_at) now s.sessions) ≤ max_sessions
          → get_session id s ≡ some v
          → now ≤ v.expires_at
          → get_session id (perform_store_cleanup max_sessions now s).1 ≡ some v)
unfolding get_session get_unregistered_session perform_store_cleanup
cleanup_sound max_sessions now id s v w = (
  sweep-get (λ x. x.expires_at) max_sessions now id s.sessions v,
  sweep-get (λ x. x.expires_at) max_sessions now id s.unregistered_sessions w,
  fresh-get (λ x. x.expires_at) max_sessions now id s.sessions v,
)
