-- ===== src/Mfa/Tests.antt =====
-- Runs of the store and of login challenges.
use Prim.Native.String.{◌++◌}
use absolute_auth.Prelude.{
  ◌≡◌, ◌≢◌, ◌≤◌, String, false, none, some, List, [], ◌∷◌, refl, arith, includes,
}
use absolute_auth.JsMap.{get, set, delete}
use absolute_auth.Crypto.Totp.{Runtime}
use absolute_auth.Mfa.{
  attempt_key, claim_code_attempt, complete_code_challenge, MfaEnrollment, JsonText, Slots,
}
use absolute_auth.Mfa.Attempts.{Claim, Limits, allowed_count, attempts_bounded}
use absolute_auth.Mfa.Challenge.{
  backup_codes, totp_codes, uses_backup_code, Config, Pending, World, Request, Fresh, challenge,
  authenticated,
}
use absolute_auth.Mfa.Laws.{Accepted, challenge_sound}
use absolute_auth.Mfa.Spent.{challenge_all}
use absolute_auth.Mfa.Once.{backup_code_used_once}

joined : List String → String
joined [] = "]"
joined (s ∷ ss) = s ++ ("," ++ joined ss)

abbrev json : JsonText
json = record { strings = joined; factors = λ fs. "" }

abbrev limits : Limits
limits = record { max_attempts = λ factor. 2; window_ms = 1000 }

abbrev claims : List Claim
claims =
    record { user_id = "alice"; factor = "totp"; now = 5 }
    ∷ record { user_id = "bob"; factor = "totp"; now = 6 }
    ∷ record { user_id = "alice"; factor = "totp"; now = 7 }
    ∷ record { user_id = "alice"; factor = "totp"; now = 8 }
    ∷ []

abbrev no_slots : Slots
no_slots = record { enrollments = []; code_attempts = [] }

allowed_two : allowed_count json limits "alice" "totp" claims no_slots ≡ 2
unfolding claim_code_attempt get set joined
allowed_two = refl

attempts_bounded_example : allowed_count json limits "alice" "totp" claims no_slots ≤ 2
unfolding get joined attempt_key
attempts_bounded_example =
    attempts_bounded json limits "alice" "totp" 5 claims no_slots refl
      (
        (omega arith, omega arith),
        (
          (omega arith, omega arith),
          ((omega arith, omega arith), ((omega arith, omega arith), tt)),
        ),
      )
      (refl, (refl, (refl, (refl, tt))))

abbrev runtime : Runtime
runtime = record {
  hmac_sha1 = λ k m. 0 ∷ m;
  sha256 = λ t. [];
  to_upper_case = λ t. t;
  base64url = λ b. "hash";
}

abbrev cfg : Config String String
cfg = record {
  runtime = runtime;
  decrypt_secret = λ c k. c;
  json = json;
  get_challenge_user = λ i. i;
  get_user_id = λ u. u;
  encryption_key = none;
  session_duration_ms = 1000;
  totp_max_attempts = 5;
  backup_code_max_attempts = 5;
  code_attempt_window_ms = 1000;
}

abbrev enrollment : MfaEnrollment
enrollment = record {
  backup_code_hashes = "hash" ∷ "other" ∷ [];
  created_at = 0;
  factors = some [];
  last_used_at = none;
  sms_failed_attempts = none;
  sms_pending_code_hash = none;
  sms_pending_code_expires_at = none;
  sms_pending_purpose = none;
  sms_pending_factor_id = none;
  sms_provider_reference = none;
  sms_code_sent_at = none;
  sms_challenge_id = none;
  sms_phone = none;
  sms_verified = false;
  totp_failed_attempts = none;
  totp_secret_ciphertext = none;
  totp_verified = false;
  updated_at = 0;
  user_id = "alice";
}

abbrev pending : Pending String
pending = record { expires_at = 100; user_identity = some "alice" }

abbrev world : World String String
world = record {
  slots = record { enrollments = ("alice", enrollment) ∷ []; code_attempts = [] };
  unregistered = ("p1", pending) ∷ ("p2", pending) ∷ [];
  sessions = [];
}

abbrev request : String → Request
request id = record {
  pending_id = some id;
  code = some "backup";
  factor = some backup_codes;
  factor_id = none;
}

abbrev fresh : String → Fresh
fresh id = record {
  checked_at = 10;
  claimed_at = 11;
  verified_at = 12;
  completed_at = 13;
  promoted_at = 14;
  expiring_at = 15;
  user_session_id = id;
}

abbrev after : World String String
after = (challenge cfg (request "p1") (fresh "s1") world).1

first_accepted : (challenge cfg (request "p1") (fresh "s1") world).0 ≡ authenticated "s1"
unfolding challenge get claim_code_attempt includes complete_code_challenge delete
first_accepted = refl

challenge_sound_example : Accepted cfg (request "p1") (fresh "s1") world after
challenge_sound_example = challenge_sound cfg (request "p1") (fresh "s1") world "s1" first_accepted

-- In between, Alice answers with a code that is not valid.
abbrev between : List (Request × Fresh)
between = (record (request "p2") { factor = some totp_codes }, fresh "s3") ∷ []

backup_code_used_once_example :
    (challenge cfg (request "p2") (fresh "s2") (challenge_all cfg between after)).0
    ≢ authenticated "s2"
unfolding challenge get claim_code_attempt includes complete_code_challenge delete uses_backup_code
    absolute_auth.Mfa.reset_code_attempts set joined
backup_code_used_once_example =
    backup_code_used_once cfg (request "p1") (request "p2") (fresh "s1") (fresh "s2") between world
      "s1" "alice" "backup" refl refl refl first_accepted refl refl refl "s2"
