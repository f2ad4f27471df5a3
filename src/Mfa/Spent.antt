-- ===== src/Mfa/Spent.antt =====
-- A backup code that is gone from an enrollment stays gone, whatever challenges follow.
use absolute_auth.Prelude.{
  ℕ, Bool, if◌then◌else◌, String, ◌≡◌, refl, true, false, not, Option, none, some, List, [], ◌∷◌,
  string_eq, option_string_eq, includes, arith, eq_iff,
}
use absolute_auth.JsMap.{get}
use absolute_auth.JsMap.Laws.{get-set}
use absolute_auth.Mfa.{
  MfaEnrollment, MfaAttempt, Slots, completed, without_hash, complete_found, reset_code_attempts,
  complete_code_challenge, claim_code_attempt,
}
use absolute_auth.Mfa.Challenge.{
  Config, Pending, complete_valid, promote, answer_code, check_code, answer_user, answer_enrolled,
  answer_pending, answer_id, attempt_factor, max_attempts, World, Request, Fresh, challenge,
  uses_backup_code, backup_code_hash,
}

-- Several challenges, in order.
abbrev pub challenge_all :
    {I U : Type 0} → Config I U → List (Request × Fresh) → World I U → World I U
challenge_all cfg [] w = w
challenge_all cfg ((request, fresh) ∷ rest) w =
    challenge_all cfg rest (challenge cfg request fresh w).1

-- That the enrollment, if there is one, does not have the hash.
abbrev pub absent : String → Option MfaEnrollment → Bool
absent hash none = true
absent hash (some enrollment) = not (includes hash enrollment.backup_code_hashes)

kept_out :
    (hash : String) (used : Option String) (hashes : List String)
    → includes hash hashes ≡ false
    → includes hash (without_hash used hashes) ≡ false
unfolding includes without_hash
kept_out hash none hashes h = h
kept_out hash (some u) [] h = refl
kept_out hash (some u) (x ∷ hashes) h = ground (arith, h, kept_out hash (some u) hashes)

module _ {I U : Type 0} (cfg : Config I U) (id hash : String) where
  abbrev pub IsSpent : Slots → Type 0
  IsSpent s = absent hash (get id s.enrollments) ≡ true

  complete-IsSpent :
      (user_id : String) (used : Option String) (now : ℕ) (o : Option MfaEnrollment) (s : Slots)
      → get user_id s.enrollments ≡ o
      → IsSpent s
      → IsSpent (complete_found user_id used now o s).1
  unfolding complete_found completed
  complete-IsSpent user_id used now none s e h = h
  complete-IsSpent user_id used now (some current) s e h = ground (
    arith,
    h,
    e,
    get-set user_id id (completed used now current) s.enrollments,
    eq_iff user_id id,
    kept_out hash used current.backup_code_hashes,
  )

  reset-IsSpent :
      (user_id factor : String) (attempt : MfaAttempt) (s : Slots)
      → IsSpent s
      → IsSpent (reset_code_attempts cfg.json user_id factor attempt s)
  unfolding reset_code_attempts
  reset-IsSpent user_id factor attempt s h = ground (arith, h)

  valid-IsSpent :
      (pending_id : String) (user : U) (used : Option String) (factor : String)
      (attempt : MfaAttempt) (fresh : Fresh) (w : World I U)
      → IsSpent w.slots
      → IsSpent (complete_valid cfg pending_id user used factor attempt fresh w).1.slots
  unfolding complete_valid promote complete_code_challenge
  valid-IsSpent pending_id user used factor attempt fresh w h =
      let s = (complete_code_challenge (cfg.get_user_id user) used fresh.completed_at w.slots).1 in
      let done =
        complete-IsSpent (cfg.get_user_id user) used fresh.completed_at
          (get (cfg.get_user_id user) w.slots.enrollments) w.slots refl h in
      let cleared = reset-IsSpent (cfg.get_user_id user) factor attempt s done in
      ground (arith, done, cleared)

  code-IsSpent :
      (pending_id : String) (user : U) (enrollment : MfaEnrollment) (request : Request)
      (code : Option String) (fresh : Fresh) (w : World I U)
      → IsSpent w.slots
      → IsSpent (answer_code cfg pending_id user enrollment request code fresh w).1.slots
  unfolding answer_code check_code claim_code_attempt
  code-IsSpent pending_id user enrollment request none fresh w h = h
  code-IsSpent pending_id user enrollment request (some code) fresh w h =
      let backup = uses_backup_code request.factor request.factor_id code in
      let claim =
        claim_code_attempt cfg.json (cfg.get_user_id user)
          (attempt_factor request.factor request.factor_id code) (max_attempts cfg backup)
          cfg.code_attempt_window_ms fresh.claimed_at w.slots in
      ground (
        arith,
        h,
        valid-IsSpent pending_id user (backup_code_hash cfg code backup)
            (if backup then "backup_codes" else "totp") claim.0 fresh (record w { slots = claim.1 })
            h,
      )

  enrolled-IsSpent :
      (pending_id : String) (user : U) (o : Option MfaEnrollment) (request : Request)
      (fresh : Fresh) (w : World I U)
      → IsSpent w.slots
      → IsSpent (answer_enrolled cfg pending_id user o request fresh w).1.slots
  unfolding answer_enrolled
  enrolled-IsSpent pending_id user none request fresh w h = h
  enrolled-IsSpent pending_id user (some enrollment) request fresh w h =
      code-IsSpent pending_id user enrollment request request.code fresh w h

  user-IsSpent :
      (pending_id : String) (o : Option U) (request : Request) (fresh : Fresh) (w : World I U)
      → IsSpent w.slots
      → IsSpent (answer_user cfg pending_id o request fresh w).1.slots
  unfolding answer_user
  user-IsSpent pending_id none request fresh w h = h
  user-IsSpent pending_id (some user) request fresh w h =
      enrolled-IsSpent pending_id user (get (cfg.get_user_id user) w.slots.enrollments) request
        fresh w h

  pending-IsSpent :
      (pending_id : String) (o : Option (Pending I)) (request : Request) (fresh : Fresh)
      (w : World I U)
      → IsSpent w.slots
      → IsSpent (answer_pending cfg pending_id o request fresh w).1.slots
  unfolding answer_pending
  pending-IsSpent pending_id none request fresh w h = h
  pending-IsSpent pending_id (some pending) request fresh w h = ground (
    arith,
    h,
    user-IsSpent pending_id (cfg.get_challenge_user pending.user_identity) request fresh w h,
  )

  challenge-IsSpent :
      (o : Option String) (request : Request) (fresh : Fresh) (w : World I U)
      → IsSpent w.slots
      → IsSpent (answer_id cfg o request fresh w).1.slots
  unfolding answer_id
  challenge-IsSpent none request fresh w h = h
  challenge-IsSpent (some pending_id) request fresh w h =
      ground
        (arith, h, pending-IsSpent pending_id (get pending_id w.unregistered) request fresh w h)

  pub challenge_all-IsSpent :
      (rest : List (Request × Fresh)) (w : World I U)
      → IsSpent w.slots
      → IsSpent (challenge_all cfg rest w).slots
  unfolding challenge
  challenge_all-IsSpent [] w h = h
  challenge_all-IsSpent ((request, fresh) ∷ rest) w h =
      challenge_all-IsSpent rest (challenge cfg request fresh w).1
        (challenge-IsSpent request.pending_id request fresh w h)
