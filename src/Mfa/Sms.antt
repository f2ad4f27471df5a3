-- ===== src/Mfa/Sms.antt =====
-- The operations of the in-memory MFA store on SMS challenges and on a user's removal.
use absolute_auth.Prelude.{
  ℕ, String, Bool, true, false, not, ◌||◌, Option, none, some, List, ◌+◌, ◌==◌, string_eq, nat_eq,
  option_string_eq, ltb, leb, if◌then◌else◌,
}
use absolute_auth.JsMap.{JsMap, get, set, delete, delete_where}
use absolute_auth.Mfa.{
  MfaFactor, MfaEnrollment, JsonText, Slots, Store, or_else, or_zero, attempt_key,
}

sent_after : ℕ → Option MfaEnrollment → Bool
sent_after cutoff none = false
sent_after cutoff (some current) = elim current.sms_code_sent_at [
  | none ↦ false
  | some at ↦ ltb cutoff at
]

unfoldable pub claim_sms_challenge : String → ℕ → MfaEnrollment → Slots → Bool × Slots
unfolding sent_after
claim_sms_challenge challenge_id cooldown_cutoff enrollment s =
    if sent_after cooldown_cutoff (get enrollment.user_id s.enrollments) then (false, s) else (
      true,
      record s {
        enrollments =
            set enrollment.user_id (record enrollment { sms_challenge_id = some challenge_id })
              s.enrollments;
      },
    )

-- current?.smsChallengeId
unfoldable pub challenge_of : Option MfaEnrollment → Option String
challenge_of none = none
challenge_of (some current) = current.sms_challenge_id

-- What completeSmsChallenge writes; `now` is the clock read in the store.
unfoldable pub sms_completed :
    Option (List MfaFactor) → Option ℕ → Bool → ℕ → MfaEnrollment → MfaEnrollment
unfolding or_else
sms_completed factors last_used_at sms_verified now current = record current {
  factors = or_else factors current.factors;
  last_used_at = or_else last_used_at current.last_used_at;
  sms_challenge_id = none;
  sms_failed_attempts = some 0;
  sms_pending_code_expires_at = none;
  sms_pending_code_hash = none;
  sms_pending_factor_id = none;
  sms_pending_purpose = none;
  sms_provider_reference = none;
  sms_verified = sms_verified;
  updated_at = now;
}

-- An update of the user's enrollment while the challenge is the one that runs.
unfoldable pub update_challenged :
    String → String → (MfaEnrollment → MfaEnrollment) → Option MfaEnrollment → Slots → Bool × Slots
update_challenged user_id challenge_id f none s = (false, s)
update_challenged user_id challenge_id f (some current) s =
    if current.sms_challenge_id == some challenge_id
    then (true, record s { enrollments = set user_id (f current) s.enrollments })
    else (false, s)

unfoldable pub complete_sms_challenge :
    String → Option (List MfaFactor) → Option ℕ → Bool → String → ℕ → Slots → Bool × Slots
unfolding update_challenged sms_completed
complete_sms_challenge challenge_id factors last_used_at sms_verified user_id now s =
    update_challenged user_id challenge_id (sms_completed factors last_used_at sms_verified now)
      (get user_id s.enrollments) s

unfoldable pub sms_finalized : ℕ → Option String → Option String → ℕ → MfaEnrollment → MfaEnrollment
sms_finalized expires_at hash provider_reference now current = record current {
  sms_pending_code_expires_at = some expires_at;
  sms_pending_code_hash = hash;
  sms_provider_reference = provider_reference;
  updated_at = now;
}

unfoldable pub finalize_sms_challenge :
    String → ℕ → Option String → Option String → String → ℕ → Slots → Bool × Slots
unfolding update_challenged sms_finalized
finalize_sms_challenge challenge_id expires_at hash provider_reference user_id now s =
    update_challenged user_id challenge_id (sms_finalized expires_at hash provider_reference now)
      (get user_id s.enrollments) s

unfoldable pub failure_found :
    String → ℕ → String → ℕ → Option MfaEnrollment → Slots → Option ℕ × Slots
unfolding or_zero
failure_found challenge_id max_attempts user_id now none s = (none, s)
failure_found challenge_id max_attempts user_id now (some current) s =
    if not (current.sms_challenge_id == some challenge_id)
      || leb max_attempts (or_zero current.sms_failed_attempts)
    then (none, s)
    else (
      some (or_zero current.sms_failed_attempts + 1),
      record s {
        enrollments =
            set user_id
              (record current {
                sms_failed_attempts = some (or_zero current.sms_failed_attempts + 1);
                updated_at = now;
              })
              s.enrollments;
      },
    )

unfoldable pub record_sms_failure : String → ℕ → String → ℕ → Slots → Option ℕ × Slots
unfolding failure_found
record_sms_failure challenge_id max_attempts user_id now s =
    failure_found challenge_id max_attempts user_id now (get user_id s.enrollments) s

-- The three deletions of a user's counters.
unfoldable pub clear_attempts : JsonText → String → Slots → Slots
unfolding attempt_key
clear_attempts json user_id s = record s {
  code_attempts = delete (attempt_key json user_id "sms_send") (
      delete (attempt_key json user_id "backup_codes")
        (delete (attempt_key json user_id "totp") s.code_attempts));
}

unfoldable pub remove_enrollment : JsonText → String → Store → Store
unfolding clear_attempts
remove_enrollment json user_id s = record {
  slots = clear_attempts json user_id (record {
    enrollments = delete user_id s.slots.enrollments;
    code_attempts = s.slots.code_attempts;
  });
  sms_scopes = delete_where (λ scope. scope.user_id == user_id) s.sms_scopes;
}

restored : String → Option MfaEnrollment → JsMap MfaEnrollment → JsMap MfaEnrollment
restored user_id none m = delete user_id m
restored user_id (some previous) m = set user_id previous m

unfoldable pub rollback_sms_challenge :
    JsonText → String → Option MfaEnrollment → String → Slots → Slots
unfolding challenge_of restored clear_attempts
rollback_sms_challenge json challenge_id previous user_id s =
    if challenge_of (get user_id s.enrollments) == some challenge_id
    then clear_attempts json user_id
        (record s { enrollments = restored user_id previous s.enrollments })
    else s
