-- ===== src/Sessions/Laws.antt =====
-- What revokeUserSessions and refreshUserSessions leave under each session id.
use absolute_auth.Prelude.{
  ℕ, ◌≡◌, ◌≤◌, String, Bool, true, false, not, ◌&&◌, Option, none, some, List, [], ◌∷◌, ◌==◌,
  string_eq, option_string_eq, if◌then◌else◌, filter, includes, any, arith, eq_iff, refl,
}
use absolute_auth.JsMap.{JsMap, get}
use absolute_auth.JsMap.Laws.{get-set, get-delete}
use absolute_auth.Sessions.Swept.{get-includes}
use absolute_auth.Sessions.{
  SessionData, UserSession, AuthSessionStore, keys, get_session, set_session, remove_session,
  entries, with_record, list_session_ids, list_user_sessions, with_user, set_all, remove_all,
  load_session_from_source, is_target, refresh_user_sessions, revoke_user_sessions,
}

-- Whether a record is a session of the user.
abbrev pub is_owned : {U : Type 0} → (U → String) → String → Option (SessionData U) → Bool
is_owned get_user_id user_id none = false
is_owned get_user_id user_id (some session) = get_user_id session.user == user_id

-- A record that was found, with the new user.
abbrev pub with_new : {U : Type 0} → U → Option (SessionData U) → Option (SessionData U)
with_new user none = none
with_new user (some session) = some (with_user user session)

module _ {U : Type 0} where
  named : String → List (UserSession U) → Bool
  named id es = any (λ e. e.id == id) es

  get_session-remove_all :
      (id : String) (es : List (UserSession U)) (s : AuthSessionStore U)
      → get_session id (remove_all es s) ≡ (if named id es then none else get_session id s)
  unfolding named remove_all get_session remove_session
  get_session-remove_all id [] s = refl
  get_session-remove_all id (e ∷ es) s =
      ground
        (arith, get_session-remove_all id es (remove_session e.id s), get-delete e.id id s.sessions)

  module _ (get_user_id : U → String) (user_id : String) where
    named-entries :
        (except : Option String) (id : String) (ids : List String) (s : AuthSessionStore U)
        → named id (filter (is_target except) (entries get_user_id user_id ids s)) ≡ (
            includes id ids
            && (is_owned get_user_id user_id (get_session id s) && not (some id == except)))
    unfolding named entries with_record includes is_target
    named-entries except id [] s = refl
    named-entries except id (j ∷ ids) s = ground (arith, named-entries except id ids s, eq_iff j id)

    includes-owned :
        (id : String) (m : JsMap (SessionData U)) (o : Option (SessionData U))
        → get id m ≡ o
        → (includes id (keys m) && is_owned get_user_id user_id o) ≡ is_owned get_user_id user_id o
    includes-owned id m none e = ground arith
    includes-owned id m (some v) e = ground (arith, get-includes id m v e)

  filter-is_target : (es : List (UserSession U)) → filter (is_target none) es ≡ es
  unfolding is_target
  filter-is_target [] = refl
  filter-is_target (e ∷ es) = ground (arith, filter-is_target es)

  -- Each entry holds what the store has under its id.
  abbrev IsSnapshot : AuthSessionStore U → List (UserSession U) → Type 0
  IsSnapshot s [] = Unit
  IsSnapshot s (e ∷ es) = (get_session e.id s ≡ some e.session) × IsSnapshot s es

  entries-IsSnapshot :
      (get_user_id : U → String) (user_id : String) (ids : List String) (s : AuthSessionStore U)
      → IsSnapshot s (entries get_user_id user_id ids s)
  unfolding entries with_record
  entries-IsSnapshot get_user_id user_id [] s = tt
  entries-IsSnapshot get_user_id user_id (id ∷ ids) s =
      ground (arith, entries-IsSnapshot get_user_id user_id ids s)

  get_session-set_all :
      (user : U) (id : String) (start : AuthSessionStore U) (es : List (UserSession U))
      (s : AuthSessionStore U)
      → IsSnapshot start es
      → get_session id (set_all user es s)
        ≡ (if named id es then with_new user (get_session id start) else get_session id s)
  unfolding named set_all get_session set_session
  get_session-set_all user id start [] s h = refl
  get_session-set_all user id start (e ∷ es) s h = ground (
    arith,
    h.0,
    get_session-set_all user id start es (set_session e.id (with_user user e.session) s) h.1,
    get-set e.id id (with_user user e.session) s.sessions,
    eq_iff e.id id,
  )

-- After the sessions of a user are revoked, a read of an id finds nothing where the id was that of
-- a session of the user and is not the excepted one, and else what it found before.
pub sessions_revoked :
    {U : Type 0} (get_user_id : U → String) (except : Option String) (user_id id : String)
    (s : AuthSessionStore U)
    → get_session id (revoke_user_sessions get_user_id except user_id s).1 ≡ (
        if is_owned get_user_id user_id (get_session id s) && not (some id == except)
        then none
        else get_session id s)
unfolding revoke_user_sessions list_user_sessions list_session_ids get_session
sessions_revoked get_user_id except user_id id s = ground (
  arith,
  get_session-remove_all id
      (filter (is_target except) (entries get_user_id user_id (keys s.sessions) s)) s,
  named-entries get_user_id user_id except id (keys s.sessions) s,
  includes-owned get_user_id user_id id s.sessions (get_session id s) refl,
)

-- After the sessions of a user are refreshed, a read of the id of one of them finds its record with
-- the new user and all else of it unchanged, and a read of another id what it found before.
pub sessions_refreshed :
    {U : Type 0} (get_user_id : U → String) (user : U) (user_id id : String)
    (s : AuthSessionStore U)
    → get_session id (refresh_user_sessions get_user_id user user_id s).1 ≡ (
        if is_owned get_user_id user_id (get_session id s)
        then with_new user (get_session id s)
        else get_session id s)
unfolding refresh_user_sessions list_user_sessions list_session_ids get_session
sessions_refreshed get_user_id user user_id id s = ground (
  arith,
  get_session-set_all user id s (entries get_user_id user_id (keys s.sessions) s) s
      (entries-IsSnapshot get_user_id user_id (keys s.sessions) s),
  filter-is_target (entries get_user_id user_id (keys s.sessions) s),
  named-entries get_user_id user_id none id (keys s.sessions) s,
  includes-owned get_user_id user_id id s.sessions (get_session id s) refl,
)

-- What the read of a session returns is what the store then holds under its id, and an expired
-- session is not returned.
pub load_session_from_source_lem :
    {U : Type 0} (now : ℕ) (id : String) (s : AuthSessionStore U)
    → ((load_session_from_source true now (some id) s).0
        ≡ get_session id (load_session_from_source true now (some id) s).1)
      × ((v : SessionData U)
          → (load_session_from_source true now (some id) s).0 ≡ some v
          → now ≤ v.expires_at)
unfolding load_session_from_source get_session remove_session
load_session_from_source_lem now id s =
    (ground (arith, get-delete id id s.sessions, eq_iff id id), λ v h. ground (arith, h))
