-- ===== src/Mfa/Challenge.antt =====
-- A login challenge answered with a TOTP or a backup code: the POST handler of src/mfa/challenge.ts
-- for a request whose factor is not 'sms', with getMfaFactors (src/mfa/types.ts) and
-- decryptTotpSecret (src/mfa/secret.ts).
use Prim.Native.Char.{Char, code}
use absolute_auth.Prelude.{
  ℕ, String, Bool, true, false, not, ◌&&◌, ◌||◌, Option, none, some, List, [], ◌∷◌, ◌++◌, ◌+◌, ◌==◌,
  string_eq, nat_eq, option_string_eq, leb, if◌then◌else◌, includes, any, filter, length,
}
use absolute_auth.JsMap.{JsMap, get, set, delete}
use absolute_auth.Crypto.Base32.{chars}
use absolute_auth.Crypto.Totp.{Runtime, verify_totp, hash_token}
use absolute_auth.Mfa.{
  MfaFactor, sms, totp, MfaEnrollment, MfaAttempt, JsonText, Slots, get_enrollment,
  claim_code_attempt, complete_code_challenge, reset_code_attempts,
}

-- The factor that a row of one secret and one phone stands for.
legacy_totp : MfaEnrollment → List MfaFactor
legacy_totp enrollment = elim enrollment.totp_secret_ciphertext [
  | none ↦ []
  | some secret ↦
      if secret == ""
      then []
      else totp (record {
        recovery_receipt = none;
        recovery_receipt_expires_at = none;
        id = "legacy-totp";
        label = "Authenticator app";
        secret_ciphertext = secret;
        verified = enrollment.totp_verified;
      })
        ∷ []
]

legacy_sms : MfaEnrollment → List MfaFactor
legacy_sms enrollment = elim enrollment.sms_phone [
  | none ↦ []
  | some phone ↦
      if phone == ""
      then []
      else sms (record {
        id = "legacy-sms";
        label = "Text message";
        phone = phone;
        verified = enrollment.sms_verified;
      })
        ∷ []
]

unfoldable pub get_mfa_factors : MfaEnrollment → List MfaFactor
unfolding legacy_totp legacy_sms
get_mfa_factors enrollment = elim enrollment.factors [
  | none ↦ legacy_totp enrollment ++ legacy_sms enrollment
  | some factors ↦ factors
]

unfoldable pub is_verified : MfaFactor → Bool
is_verified (sms factor) = factor.verified
is_verified (totp factor) = factor.verified

unfoldable pub is_mfa_enrolled : Option MfaEnrollment → Bool
unfolding get_mfa_factors is_verified
is_mfa_enrolled none = false
is_mfa_enrolled (some enrollment) =
    any is_verified (get_mfa_factors enrollment) || not (length enrollment.backup_code_hashes == 0)

-- What the library reads from its options and from the runtime.
pub record Config (I U : Type 0) : Type 0 where
  pub runtime : Runtime
  pub decrypt_secret : String → String → String
  pub json : JsonText
  pub get_challenge_user : Option I → Option U
  pub get_user_id : U → String
  pub encryption_key : Option String
  pub session_duration_ms : ℕ
  pub totp_max_attempts : ℕ
  pub backup_code_max_attempts : ℕ
  pub code_attempt_window_ms : ℕ

pub record Pending (I : Type 0) : Type 0 where
  pub expires_at : ℕ
  pub user_identity : Option I

pub record Session (U : Type 0) : Type 0 where
  pub authenticated_at : ℕ
  pub expires_at : ℕ
  pub user : U

pub record World (I U : Type 0) : Type 0 where
  pub slots : Slots
  pub unregistered : JsMap (Pending I)
  pub sessions : JsMap (Session U)

-- The factors that are named by a request that does not go to runSmsChallenge: 'totp' and
-- 'backup_codes'.
pub data CodeFactor : Type 0 where
  totp_codes backup_codes : CodeFactor

-- The cookie and the body of a request whose factor is not 'sms'.
pub record Request : Type 0 where
  pub pending_id : Option String
  pub code : Option String
  pub factor : Option CodeFactor
  pub factor_id : Option String

-- The readings of the clock, and the random id of the new session.
pub record Fresh : Type 0 where
  pub checked_at : ℕ
  pub claimed_at : ℕ
  pub verified_at : ℕ
  pub completed_at : ℕ
  pub promoted_at : ℕ
  pub expiring_at : ℕ
  pub user_session_id : String

pub data Response : Type 0 where
  no_challenge : Response
  invalid_code : Response
  limited : (factor : String) (retry_after_ms : ℕ) → Response
  authenticated : (user_session_id : String) → Response

all_digits : List Char → Bool
all_digits [] = true
all_digits (c ∷ cs) = (leb 48 (code c) && leb (code c) 57) && all_digits cs

-- /^\d{6}$/.test(code)
unfoldable pub is_totp_shaped : String → Bool
unfolding chars all_digits
is_totp_shaped s = length (chars s) == 6 && all_digits (chars s)

unfoldable pub uses_backup_code : Option CodeFactor → Option String → String → Bool
unfolding is_totp_shaped
uses_backup_code none factor_id code = factor_id == none && not (is_totp_shaped code)
uses_backup_code (some totp_codes) factor_id code = false
uses_backup_code (some backup_codes) factor_id code = true

unfoldable pub attempt_factor : Option CodeFactor → Option String → String → String
unfolding uses_backup_code
attempt_factor factor factor_id code =
    if uses_backup_code factor factor_id code then "backup_codes" else "totp"

-- A verified TOTP factor, of the id that is asked where one is.
unfoldable pub is_asked_totp : Option String → MfaFactor → Bool
is_asked_totp factor_id (sms factor) = false
is_asked_totp factor_id (totp factor) =
    factor.verified && (factor_id == some factor.id || factor_id == none)

unfoldable pub backup_valid : Option String → MfaEnrollment → Bool
backup_valid none enrollment = false
backup_valid (some hash) enrollment = includes hash enrollment.backup_code_hashes

module _ {I U : Type 0} (cfg : Config I U) where
  -- encryptionKey ? decryptSecret(ciphertext, encryptionKey) : ciphertext
  unfoldable pub decrypt_totp_secret : String → String
  decrypt_totp_secret ciphertext = elim cfg.encryption_key [
    | none ↦ ciphertext
    | some key ↦ if key == "" then ciphertext else cfg.decrypt_secret ciphertext key
  ]

  -- verifyTotp with its defaults, on one factor.
  unfoldable pub totp_fits : ℕ → String → MfaFactor → Bool
  unfolding decrypt_totp_secret
  totp_fits now code (sms factor) = false
  totp_fits now code (totp factor) =
      verify_totp cfg.runtime 6 now 30 (decrypt_totp_secret factor.secret_ciphertext) code 1

  unfoldable pub totp_valid : ℕ → Option String → String → Bool → MfaEnrollment → Bool
  unfolding totp_fits is_asked_totp get_mfa_factors
  totp_valid now factor_id code backup enrollment =
      if backup
      then false
      else any (totp_fits now code) (filter (is_asked_totp factor_id) (get_mfa_factors enrollment))

  unfoldable pub backup_code_hash : String → Bool → Option String
  unfolding hash_token
  backup_code_hash code backup = if backup then some (hash_token cfg.runtime code) else none

  unfoldable pub max_attempts : Bool → ℕ
  max_attempts backup = if backup then cfg.backup_code_max_attempts else cfg.totp_max_attempts

  -- The pending session gives way to a session of the user.
  unfoldable pub promote : String → U → Fresh → World I U → Response × World I U
  promote pending_id user fresh w = (
    authenticated fresh.user_session_id,
    record w {
      unregistered = delete pending_id w.unregistered;
      sessions =
          set fresh.user_session_id
            (record {
              authenticated_at = fresh.promoted_at;
              expires_at = fresh.expiring_at + cfg.session_duration_ms;
              user = user;
            })
            w.sessions;
    },
  )

  -- From a valid code on: the challenge is completed, the counter is cleared.
  unfoldable pub complete_valid :
      String → U → Option String → String → MfaAttempt → Fresh → World I U → Response × World I U
  unfolding promote
  complete_valid pending_id user hash factor attempt fresh w =
      let id = cfg.get_user_id user in
      let (done, s) = complete_code_challenge id hash fresh.completed_at w.slots in
      if done
      then promote pending_id user fresh
          (record w { slots = reset_code_attempts cfg.json id factor attempt s })
      else (invalid_code, record w { slots = s })

  -- From a claimed attempt on.
  unfoldable pub check_code :
      String
      → U
      → MfaEnrollment
      → Option String
      → String
      → Bool
      → MfaAttempt
      → Fresh
      → World I U
      → Response × World I U
  unfolding totp_valid backup_code_hash backup_valid max_attempts complete_valid
  check_code pending_id user enrollment factor_id code backup attempt fresh w =
      let factor = if backup then "backup_codes" else "totp" in
      let hash = backup_code_hash code backup in
      if not attempt.allowed
      then (limited factor attempt.retry_after_ms, w)
      else if totp_valid fresh.verified_at factor_id code backup enrollment
          || backup_valid hash enrollment
      then complete_valid pending_id user hash factor attempt fresh w
      else if leb (max_attempts backup) attempt.attempts
      then (limited factor attempt.retry_after_ms, w)
      else (invalid_code, w)

  -- From the user and the enrollment on.
  unfoldable pub answer_code :
      String
      → U
      → MfaEnrollment
      → Request
      → Option String
      → Fresh
      → World I U
      → Response × World I U
  unfolding check_code attempt_factor max_attempts
  answer_code pending_id user enrollment request none fresh w = (invalid_code, w)
  answer_code pending_id user enrollment request (some code) fresh w =
      let backup = uses_backup_code request.factor request.factor_id code in
      let (attempt, s) =
        claim_code_attempt cfg.json (cfg.get_user_id user)
          (attempt_factor request.factor request.factor_id code) (max_attempts backup)
          cfg.code_attempt_window_ms fresh.claimed_at w.slots in
      check_code pending_id user enrollment request.factor_id code backup attempt fresh
        (record w { slots = s })

  unfoldable pub answer_enrolled :
      String → U → Option MfaEnrollment → Request → Fresh → World I U → Response × World I U
  unfolding answer_code
  answer_enrolled pending_id user none request fresh w = (no_challenge, w)
  answer_enrolled pending_id user (some enrollment) request fresh w =
      answer_code pending_id user enrollment request request.code fresh w

  unfoldable pub answer_user :
      String → Option U → Request → Fresh → World I U → Response × World I U
  unfolding answer_enrolled get_enrollment
  answer_user pending_id none request fresh w = (no_challenge, w)
  answer_user pending_id (some user) request fresh w =
      answer_enrolled pending_id user (get_enrollment (cfg.get_user_id user) w.slots) request fresh
        w

  unfoldable pub answer_pending :
      String → Option (Pending I) → Request → Fresh → World I U → Response × World I U
  unfolding answer_user
  answer_pending pending_id none request fresh w = (no_challenge, w)
  answer_pending pending_id (some pending) request fresh w =
      if leb pending.expires_at fresh.checked_at
      then (no_challenge, w)
      else answer_user pending_id (cfg.get_challenge_user pending.user_identity) request fresh w

  unfoldable pub answer_id : Option String → Request → Fresh → World I U → Response × World I U
  unfolding answer_pending
  answer_id none request fresh w = (no_challenge, w)
  answer_id (some pending_id) request fresh w =
      if pending_id == ""
      then (no_challenge, w)
      else answer_pending pending_id (get pending_id w.unregistered) request fresh w

  unfoldable pub challenge : Request → Fresh → World I U → Response × World I U
  unfolding answer_id
  challenge request fresh w = answer_id request.pending_id request fresh w
