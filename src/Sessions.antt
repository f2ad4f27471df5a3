-- ===== src/Sessions.antt =====
-- Sessions: the in-memory store (src/session/inMemoryStore.ts), the read of a session with its expiry
-- (src/session/access.ts) and the sessions of a user (src/session/userSessions.ts). The user's type
-- and getUserId are parameters.
pub mod Cleanup
pub mod Laws
pub mod Swept
mod Tests
use absolute_auth.Prelude.{
  ℕ, String, Bool, true, not, ◌&&◌, Option, none, some, List, [], ◌∷◌, ◌==◌, string_eq,
  option_string_eq, ltb, if◌then◌else◌, filter, length,
}
use absolute_auth.Json.{Claims}
use absolute_auth.JsMap.{JsMap, get, set, delete}

pub data OauthSubject : Type 0 where
  text : String → OauthSubject
  number : ℕ → OauthSubject

pub record SamlLogout : Type 0 where
  pub connection_id : String
  pub name_id : String
  pub session_index : Option String

pub record Impersonator : Type 0 where
  pub actor_email : Option String
  pub actor_id : String
  pub read_only : Option Bool
  pub reason : String
  pub return_to_session_id : Option String
  pub started_at : ℕ

pub record SessionData (U : Type 0) : Type 0 where
  pub user : U
  pub access_token : Option String
  pub refresh_token : Option String
  pub oauth_subject : Option OauthSubject
  pub expires_at : ℕ
  pub authenticated_at : Option ℕ
  pub saml_logout : Option SamlLogout
  pub impersonator : Option Impersonator
  pub anonymous : Option Bool
  pub sign_in_method : Option String
  pub user_agent : Option String

pub record UnregisteredSessionData : Type 0 where
  pub user_identity : Option Claims
  pub session_information : Option Claims
  pub expires_at : ℕ
  pub access_token : Option String
  pub refresh_token : Option String
  pub oauth_subject : Option OauthSubject

pub record UserSession (U : Type 0) : Type 0 where
  pub id : String
  pub session : SessionData U

-- The store's two maps.
pub record AuthSessionStore (U : Type 0) : Type 0 where
  pub sessions : JsMap (SessionData U)
  pub unregistered_sessions : JsMap UnregisteredSessionData

-- [...m.keys()]
unfoldable pub keys : {V : Type 0} → JsMap V → List String
keys [] = []
keys ((k, v) ∷ m) = k ∷ keys m

module _ {U : Type 0} where
  unfoldable pub get_session : String → AuthSessionStore U → Option (SessionData U)
  unfolding get
  get_session id store = get id store.sessions

  unfoldable pub get_unregistered_session :
      String → AuthSessionStore U → Option UnregisteredSessionData
  unfolding get
  get_unregistered_session id store = get id store.unregistered_sessions

  unfoldable pub list_session_ids : AuthSessionStore U → List String
  unfolding keys
  list_session_ids store = keys store.sessions

  unfoldable pub list_unregistered_session_ids : AuthSessionStore U → List String
  unfolding keys
  list_unregistered_session_ids store = keys store.unregistered_sessions

  unfoldable pub remove_session : String → AuthSessionStore U → AuthSessionStore U
  unfolding delete
  remove_session id store = record {
    sessions = delete id store.sessions;
    unregistered_sessions = store.unregistered_sessions;
  }

  unfoldable pub remove_unregistered_session : String → AuthSessionStore U → AuthSessionStore U
  unfolding delete
  remove_unregistered_session id store = record {
    sessions = store.sessions;
    unregistered_sessions = delete id store.unregistered_sessions;
  }

  unfoldable pub set_session : String → SessionData U → AuthSessionStore U → AuthSessionStore U
  unfolding set
  set_session id value store = record {
    sessions = set id value store.sessions;
    unregistered_sessions = store.unregistered_sessions;
  }

  unfoldable pub set_unregistered_session :
      String → UnregisteredSessionData → AuthSessionStore U → AuthSessionStore U
  unfolding set
  set_unregistered_session id value store = record {
    sessions = store.sessions;
    unregistered_sessions = set id value store.unregistered_sessions;
  }

  -- The session that was read, unless it has expired: then it is removed.
  loaded :
      Bool
      → ℕ
      → String
      → Option (SessionData U)
      → AuthSessionStore U
      → Option (SessionData U) × AuthSessionStore U
  unfolding remove_session
  loaded remove_expired now id none store = (none, store)
  loaded remove_expired now id (some session) store =
      if remove_expired && ltb session.expires_at now
      then (none, remove_session id store)
      else (some session, store)

  unfoldable pub load_session_from_source :
      Bool → ℕ → Option String → AuthSessionStore U → Option (SessionData U) × AuthSessionStore U
  unfolding loaded get_session
  load_session_from_source remove_expired now none store = (none, store)
  load_session_from_source remove_expired now (some id) store =
      loaded remove_expired now id (get_session id store) store

  loaded_pending :
      ℕ
      → String
      → Option UnregisteredSessionData
      → AuthSessionStore U
      → Option UnregisteredSessionData × AuthSessionStore U
  unfolding remove_unregistered_session
  loaded_pending now id none store = (none, store)
  loaded_pending now id (some pending) store =
      if ltb now pending.expires_at
      then (some pending, store)
      else (none, remove_unregistered_session id store)

  unfoldable pub load_unregistered_session_from_source :
      ℕ → Option String → AuthSessionStore U → Option UnregisteredSessionData × AuthSessionStore U
  unfolding loaded_pending get_unregistered_session
  load_unregistered_session_from_source now none store = (none, store)
  load_unregistered_session_from_source now (some id) store =
      loaded_pending now id (get_unregistered_session id store) store

module _ {U : Type 0} (get_user_id : U → String) (user_id : String) where
  -- The record read for an id, kept where it is a session of the user.
  unfoldable pub with_record :
      String → Option (SessionData U) → List (UserSession U) → List (UserSession U)
  with_record id none rest = rest
  with_record id (some session) rest =
      if get_user_id session.user == user_id
      then record { id = id; session = session } ∷ rest
      else rest

  unfoldable pub entries : List String → AuthSessionStore U → List (UserSession U)
  unfolding with_record get_session
  entries [] store = []
  entries (id ∷ ids) store = with_record id (get_session id store) (entries ids store)

  unfoldable pub list_user_sessions : AuthSessionStore U → List (UserSession U)
  unfolding entries list_session_ids
  list_user_sessions store = entries (list_session_ids store) store

module _ {U : Type 0} where
  -- { ...session, user }
  unfoldable pub with_user : U → SessionData U → SessionData U
  with_user user session = record {
    user = user;
    access_token = session.access_token;
    refresh_token = session.refresh_token;
    oauth_subject = session.oauth_subject;
    expires_at = session.expires_at;
    authenticated_at = session.authenticated_at;
    saml_logout = session.saml_logout;
    impersonator = session.impersonator;
    anonymous = session.anonymous;
    sign_in_method = session.sign_in_method;
    user_agent = session.user_agent;
  }

  unfoldable pub set_all : U → List (UserSession U) → AuthSessionStore U → AuthSessionStore U
  unfolding set_session with_user
  set_all user [] store = store
  set_all user (entry ∷ rest) store =
      set_all user rest (set_session entry.id (with_user user entry.session) store)

  unfoldable pub refresh_user_sessions :
      (U → String) → U → String → AuthSessionStore U → ℕ × AuthSessionStore U
  unfolding list_user_sessions set_all
  refresh_user_sessions get_user_id user user_id store =
      let sessions = list_user_sessions get_user_id user_id store in
      (length sessions, set_all user sessions store)

  unfoldable pub remove_all : List (UserSession U) → AuthSessionStore U → AuthSessionStore U
  unfolding remove_session
  remove_all [] store = store
  remove_all (entry ∷ rest) store = remove_all rest (remove_session entry.id store)

  -- entry.id !== exceptSessionId
  unfoldable pub is_target : Option String → UserSession U → Bool
  is_target except_session_id entry = not (some entry.id == except_session_id)

  unfoldable pub revoke_user_sessions :
      (U → String) → Option String → String → AuthSessionStore U → ℕ × AuthSessionStore U
  unfolding list_user_sessions is_target remove_all
  revoke_user_sessions get_user_id except_session_id user_id store =
      let sessions = list_user_sessions get_user_id user_id store in
      let targets = filter (is_target except_session_id) sessions in
      (length targets, remove_all targets store)
