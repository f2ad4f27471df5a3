-- ===== src/Mfa.antt =====
-- Multi-factor authentication: the enrollment and its factors (src/mfa/types.ts), the in-memory store
-- (src/mfa/inMemoryMfaStore.ts) and consumeBackupCode (src/mfa/backupCodes.ts).
pub mod Sms
pub mod Challenge
pub mod Attempts
pub mod Fits
pub mod Laws
pub mod Once
pub mod Spent
mod Tests
use absolute_auth.Prelude.{
  ℕ, String, Bool, true, false, not, ◌&&◌, ◌||◌, Option, none, some, List, [], ◌∷◌, map, ◌+◌, ◌-◌,
  ◌==◌, string_eq, nat_eq, option_string_eq, ltb, leb, if◌then◌else◌, includes, filter, find, any,
}
use absolute_auth.JsMap.{JsMap, get, set, delete, delete_where, values}

pub record SmsMfaFactor : Type 0 where
  pub id : String
  pub label : String
  pub phone : String
  pub verified : Bool

pub record TotpMfaFactor : Type 0 where
  pub recovery_receipt : Option String
  pub recovery_receipt_expires_at : Option ℕ
  pub id : String
  pub label : String
  pub secret_ciphertext : String
  pub verified : Bool

pub data MfaFactor : Type 0 where
  sms : SmsMfaFactor → MfaFactor
  totp : TotpMfaFactor → MfaFactor

pub record MfaEnrollment : Type 0 where
  pub backup_code_hashes : List String
  pub created_at : ℕ
  pub factors : Option (List MfaFactor)
  pub last_used_at : Option ℕ
  pub sms_failed_attempts : Option ℕ
  pub sms_pending_code_hash : Option String
  pub sms_pending_code_expires_at : Option ℕ
  pub sms_pending_purpose : Option String
  pub sms_pending_factor_id : Option String
  pub sms_provider_reference : Option String
  pub sms_code_sent_at : Option ℕ
  pub sms_challenge_id : Option String
  pub sms_phone : Option String
  pub sms_verified : Bool
  pub totp_failed_attempts : Option ℕ
  pub totp_secret_ciphertext : Option String
  pub totp_verified : Bool
  pub updated_at : ℕ
  pub user_id : String

pub record MfaAttempt : Type 0 where
  pub allowed : Bool
  pub attempts : ℕ
  pub retry_after_ms : ℕ
  pub window_started_at : ℕ

-- JSON.stringify of a pair or a triple of strings, and of the values that saveTotpEnrollment compares.
pub record JsonText : Type 0 where
  pub strings : List String → String
  pub factors : List MfaFactor → String

-- The maps that the operations of one challenge use.
pub record Slots : Type 0 where
  pub enrollments : JsMap MfaEnrollment
  pub code_attempts : JsMap MfaAttempt

pub record SmsScope : Type 0 where
  pub store : Slots
  pub expires_at : ℕ
  pub user_id : String

pub record Store : Type 0 where
  pub slots : Slots
  pub sms_scopes : JsMap SmsScope

-- a ?? b
unfoldable pub or_else {ℓ} : {A : Type ℓ} → Option A → Option A → Option A
or_else none b = b
or_else (some a) b = some a

-- (a ?? 0)
unfoldable pub or_zero : Option ℕ → ℕ
or_zero none = 0
or_zero (some n) = n

unfoldable pub attempt_key : JsonText → String → String → String
attempt_key json user_id factor = json.strings (user_id ∷ factor ∷ [])

-- The count that a claim starts from, as attempts and the start of the window.
unfoldable pub current_window : ℕ → ℕ → Option MfaAttempt → ℕ × ℕ
current_window now window_ms none = (0, now)
current_window now window_ms (some previous) =
    if ltb now (previous.window_started_at + window_ms)
    then (previous.attempts, previous.window_started_at)
    else (0, now)

unfoldable pub claimed : ℕ → ℕ → ℕ → Option MfaAttempt → MfaAttempt
unfolding current_window
claimed max_attempts window_ms now previous =
    let (attempts, started) = current_window now window_ms previous in
    record {
      allowed = ltb attempts max_attempts;
      attempts = attempts + (if ltb attempts max_attempts then 1 else 0);
      retry_after_ms = started + window_ms - now;
      window_started_at = started;
    }

unfoldable pub claim_code_attempt :
    JsonText → String → String → ℕ → ℕ → ℕ → Slots → MfaAttempt × Slots
unfolding claimed attempt_key
claim_code_attempt json user_id factor max_attempts window_ms now s =
    let key = attempt_key json user_id factor in
    let result = claimed max_attempts window_ms now (get key s.code_attempts) in
    (result, record s { code_attempts = set key result s.code_attempts })

-- Whether the hash that a challenge consumes, where it has one, is among the user's.
unfoldable pub hash_missing : Option String → List String → Bool
hash_missing none hashes = false
hash_missing (some hash) hashes = not (includes hash hashes)

unfoldable pub without_hash : Option String → List String → List String
without_hash none hashes = hashes
without_hash (some hash) hashes = filter (λ h. not (h == hash)) hashes

unfoldable pub completed : Option String → ℕ → MfaEnrollment → MfaEnrollment
unfolding without_hash
completed backup_code_hash now current = record current {
  backup_code_hashes = without_hash backup_code_hash current.backup_code_hashes;
  last_used_at = some now;
  totp_failed_attempts = some 0;
  updated_at = now;
}

unfoldable pub complete_found :
    String → Option String → ℕ → Option MfaEnrollment → Slots → Bool × Slots
unfolding hash_missing completed
complete_found user_id backup_code_hash now none s = (false, s)
complete_found user_id backup_code_hash now (some current) s =
    if hash_missing backup_code_hash current.backup_code_hashes then (false, s) else (
      true,
      record s { enrollments = set user_id (completed backup_code_hash now current) s.enrollments },
    )

unfoldable pub complete_code_challenge : String → Option String → ℕ → Slots → Bool × Slots
unfolding complete_found
complete_code_challenge user_id backup_code_hash now s =
    complete_found user_id backup_code_hash now (get user_id s.enrollments) s

unfoldable pub get_enrollment : String → Slots → Option MfaEnrollment
get_enrollment user_id s = get user_id s.enrollments

unfoldable pub list_enrollments : Slots → List MfaEnrollment
list_enrollments s = values s.enrollments

unfoldable pub same_attempt : MfaAttempt → Option MfaAttempt → Bool
same_attempt attempt none = false
same_attempt attempt (some current) =
    current.window_started_at == attempt.window_started_at && current.attempts == attempt.attempts

unfoldable pub reset_code_attempts : JsonText → String → String → MfaAttempt → Slots → Slots
unfolding attempt_key same_attempt
reset_code_attempts json user_id factor attempt s =
    let key = attempt_key json user_id factor in
    if same_attempt attempt (get key s.code_attempts)
    then record s { code_attempts = delete key s.code_attempts }
    else s

unfoldable pub save_enrollment : MfaEnrollment → Slots → Slots
save_enrollment enrollment s = record s {
  enrollments = set enrollment.user_id enrollment s.enrollments;
}
