-- ===== src/Audit/Tests.antt =====
-- Runs of the chain on a log of two events, with the event's type for its JSON text and the
-- message itself for its digest.
use absolute_auth.Prelude.{String, ◌≡◌, ◌≢◌, refl, none, some, length, List, [], ◌∷◌, arith, eq_iff}
use absolute_auth.JsMap.{get, set, delete}
use absolute_auth.Audit.{
  AuditEvent, Digest, AuditIntegrity, chain_ok, broken_at, link_json, read_integrity, begin_append,
  finish_append, hash_audit_event, verify_audit_chain,
}
use absolute_auth.Audit.Chain.{Action, begins, ends, logged, appended_log_verifies}
use absolute_auth.Audit.Overlap.{overlapped, refused, unchained_appends_break}
use absolute_auth.Audit.Tamper.{modified_event_detected, removed_event_detected}

abbrev plain : Digest
plain = record { digest = λ s. s; stable_stringify = λ e. e.type }

abbrev event : String → AuditEvent
event type = record {
  at = 5;
  ip = none;
  metadata = none;
  organization_id = none;
  type = type;
  user_id = some "alice";
}

abbrev link : String → String → AuditIntegrity
link hash previous = record { hash = hash; previous_hash = previous; writer_id = some "w" }

abbrev stored : AuditIntegrity → String → AuditEvent
stored i type = record (event type) { metadata = some (("__integrity", link_json i) ∷ []) }

abbrev login : AuditEvent
login = stored (link ".login" "") "login"

abbrev logout : AuditEvent
logout = stored (link ".login.logout" ".login") "logout"

abbrev forged : AuditEvent
forged = stored (link ".login" "") "forged"

-- Two writers whose appends overlap.
abbrev actions : List Action
actions =
    begins "w" (event "login")
    ∷ begins "v" (event "login")
    ∷ ends "w"
    ∷ begins "w" (event "logout")
    ∷ ends "v"
    ∷ ends "w"
    ∷ []

appended_log_verifies_example : verify_audit_chain plain (logged plain [] [] actions) ≡ chain_ok
unfolding get set delete
appended_log_verifies_example = appended_log_verifies plain actions (refl, (refl, (refl, tt)))

three_logged : length (logged plain [] [] actions) ≡ 3
unfolding get set delete begin_append finish_append
three_logged = refl

login_hashed : hash_audit_event plain (event "login") "" ≢ ""
unfolding hash_audit_event
login_hashed = ground (arith, eq_iff ".login" "")

unchained_appends_break_example :
    (verify_audit_chain plain (overlapped plain "w" (event "login") (event "logout")) ≡ broken_at 1)
    × (verify_audit_chain plain (refused plain "w" (event "login") (event "logout")) ≡ broken_at 0)
unchained_appends_break_example =
    unchained_appends_break plain "w" (event "login") (event "logout") login_hashed

log_ok : verify_audit_chain plain (login ∷ logout ∷ []) ≡ chain_ok
unfolding verify_audit_chain get set
log_ok = refl

forged_differs : hash_audit_event plain forged "" ≢ hash_audit_event plain login ""
unfolding hash_audit_event
forged_differs = ground (arith, eq_iff ".forged" ".login")

modified_event_detected_example : verify_audit_chain plain (forged ∷ logout ∷ []) ≡ broken_at 0
unfolding read_integrity get
modified_event_detected_example =
    modified_event_detected plain [] (logout ∷ []) (logout ∷ []) login forged (link ".login" "")
      log_ok refl refl forged_differs

moves : ◌≢◌ {A = String} ".login" ""
moves = ground (arith, eq_iff ".login" "")

removed_event_detected_example : verify_audit_chain plain (logout ∷ []) ≡ broken_at 0
unfolding read_integrity get
removed_event_detected_example =
    removed_event_detected plain [] [] [] login logout (link ".login" "")
      (link ".login.logout" ".login") log_ok refl refl refl tt moves
