-- ===== src/Sessions/Tests.antt =====
-- Two sessions of Ann and one of Bob: Ann's are revoked but for the one she uses, or refreshed.
use absolute_auth.Prelude.{
  ℕ, String, ◌≡◌, ◌≤◌, refl, true, ◌==◌, string_eq, if◌then◌else◌, none, some, [], ◌∷◌, length,
}
use absolute_auth.Sessions.{
  SessionData, UnregisteredSessionData, AuthSessionStore, get_unregistered_session, get_session,
  list_session_ids, with_user, load_session_from_source, refresh_user_sessions,
  revoke_user_sessions,
}
use absolute_auth.Sessions.Cleanup.{perform_store_cleanup}
use absolute_auth.Sessions.Swept.{Remaining, cleanup_sound}
use absolute_auth.Sessions.Laws.{sessions_revoked, sessions_refreshed}

abbrev session : String → ℕ → SessionData String
session user expires_at = record {
  user = user;
  access_token = none;
  refresh_token = none;
  oauth_subject = none;
  expires_at = expires_at;
  authenticated_at = none;
  saml_logout = none;
  impersonator = none;
  anonymous = none;
  sign_in_method = some "password";
  user_agent = none;
}

abbrev pending : UnregisteredSessionData
pending = record {
  user_identity = none;
  session_information = none;
  expires_at = 90;
  access_token = none;
  refresh_token = none;
  oauth_subject = none;
}

abbrev store : AuthSessionStore String
store = record {
  sessions = ("s1", session "ann" 50) ∷ ("s2", session "bob" 60) ∷ ("s3", session "ann" 70) ∷ [];
  unregistered_sessions = ("s2", pending) ∷ [];
}

-- The name before a role.
abbrev get_user_id : String → String
get_user_id user = if user == "ann (admin)" then "ann" else user

revoked_ids :
    list_session_ids (revoke_user_sessions get_user_id (some "s3") "ann" store).1 ≡ "s2" ∷ "s3" ∷ []
unfolding list_session_ids revoke_user_sessions
revoked_ids = refl

refreshed_count : (refresh_user_sessions get_user_id "ann (admin)" "ann" store).0 ≡ 2
unfolding refresh_user_sessions
refreshed_count = refl

expired_at_51 : (load_session_from_source true 51 (some "s1") store).0 ≡ none
unfolding load_session_from_source
expired_at_51 = refl

sessions_revoked_example :
    get_session "s1" (revoke_user_sessions get_user_id (some "s3") "ann" store).1 ≡ none
unfolding get_session
sessions_revoked_example = sessions_revoked get_user_id (some "s3") "ann" "s1" store

sessions_refreshed_example :
    get_session "s3" (refresh_user_sessions get_user_id "ann (admin)" "ann" store).1
    ≡ some (session "ann (admin)" 70)
unfolding get_session with_user
sessions_refreshed_example = sessions_refreshed get_user_id "ann (admin)" "ann" "s3" store

-- At 55 the first session has expired; of the two others one is too many.
swept_ids : list_session_ids (perform_store_cleanup 1 55 store).1 ≡ "s3" ∷ []
unfolding list_session_ids perform_store_cleanup
swept_ids = refl

cleanup_sound_example :
    (get_session "s2" (perform_store_cleanup 2 55 store).1 ≡ some (session "bob" 60)
      → (get_session "s2" store ≡ some (session "bob" 60)) × (55 ≤ 60))
    × (get_unregistered_session "s2" (perform_store_cleanup 2 55 store).1 ≡ some pending
        → (get_unregistered_session "s2" store ≡ some pending) × (55 ≤ 90))
    × (length (Remaining (λ x. x.expires_at) 55 store.sessions) ≤ 2
        → get_session "s2" store ≡ some (session "bob" 60)
        → 55 ≤ 60
        → get_session "s2" (perform_store_cleanup 2 55 store).1 ≡ some (session "bob" 60))
cleanup_sound_example = cleanup_sound 2 55 "s2" store (session "bob" 60) pending
