-- ===== src/Mfa/Laws.antt =====
-- What a login challenge that is answered with a session has checked.
use absolute_auth.Prelude.{
  List, String, ◌+◌, ◌≡◌, ◌<◌, inl, inr, refl, sym, subst, true, ◌||◌, Option, none, some, ◌==◌,
  string_eq, if◌then◌else◌, arith, eq_iff, Bool-cases, leb,
}
use absolute_auth.JsMap.{get, set, delete}
use absolute_auth.JsMap.Laws.{get-set}
use absolute_auth.Mfa.{
  MfaEnrollment, without_hash, MfaAttempt, claimed, attempt_key, completed, complete_code_challenge,
  complete_found, claim_code_attempt, reset_code_attempts,
}
use absolute_auth.Mfa.Challenge.{
  CodeFactor, Config, Pending, World, Request, Fresh, authenticated, uses_backup_code,
  attempt_factor, totp_valid, backup_code_hash, backup_valid, max_attempts, promote, complete_valid,
  check_code, answer_code, answer_enrolled, answer_user, answer_pending, answer_id, challenge,
}
use absolute_auth.Mfa.Fits.{remaining_codes, CodeFits, valid-CodeFits, without-remaining_codes}

module _ {I U : Type 0} (cfg : Config I U) where
  -- What completing a challenge changes.
  abbrev pub Completed :
      String → U → List String → Fresh → MfaEnrollment → World I U → World I U → Type 0
  Completed pending_id user hashes fresh enrollment w w' =
      (w'.unregistered ≡ delete pending_id w.unregistered)
      × (w'.sessions
          ≡ set fresh.user_session_id
              (record {
                authenticated_at = fresh.promoted_at;
                expires_at = fresh.expiring_at + cfg.session_duration_ms;
                user = user;
              })
              w.sessions)
      × (get (cfg.get_user_id user) w'.slots.enrollments
          ≡ some (record enrollment {
            backup_code_hashes = hashes;
            last_used_at = some fresh.completed_at;
            totp_failed_attempts = some 0;
            updated_at = fresh.completed_at;
          }))

  complete_valid-Completed :
      (pending_id : String) (user : U) (hash : Option String) (factor : String)
      (attempt : MfaAttempt) (fresh : Fresh) (enrollment : MfaEnrollment) (w : World I U)
      (sid : String)
      → get (cfg.get_user_id user) w.slots.enrollments ≡ some enrollment
      → (complete_valid cfg pending_id user hash factor attempt fresh w).0 ≡ authenticated sid
      → Completed pending_id user
          (without_hash hash enrollment.backup_code_hashes)
          fresh
          enrollment
          w
          (complete_valid cfg pending_id user hash factor attempt fresh w).1
  unfolding complete_valid complete_code_challenge complete_found promote reset_code_attempts
      completed
  complete_valid-Completed pending_id user hash factor attempt fresh enrollment w sid e h = ground (
    arith,
    e,
    h,
    get-set (cfg.get_user_id user) (cfg.get_user_id user)
        (completed hash fresh.completed_at enrollment) w.slots.enrollments,
    eq_iff (cfg.get_user_id user) (cfg.get_user_id user),
  )

  -- What a request was checked for, and what it leaves, when a session answers it.
  abbrev pub Checked :
      String
      → U
      → MfaEnrollment
      → Option CodeFactor
      → Option String
      → String
      → Fresh
      → World I U
      → World I U
      → Type 0
  Checked pending_id user enrollment factor factor_id code fresh w w' =
      let backup = uses_backup_code factor factor_id code in
      ((claimed (max_attempts cfg backup) cfg.code_attempt_window_ms fresh.claimed_at (
          get (attempt_key cfg.json (cfg.get_user_id user) (attempt_factor factor factor_id code))
            w.slots.code_attempts)).allowed
        ≡ true)
      × CodeFits cfg backup fresh.verified_at factor_id code enrollment
      × Completed pending_id user
          (remaining_codes cfg.runtime backup code enrollment.backup_code_hashes) fresh enrollment w
          w'

  answer_code-Checked :
      (pending_id : String) (user : U) (enrollment : MfaEnrollment) (request : Request)
      (code : String) (fresh : Fresh) (w : World I U) (sid : String)
      → get (cfg.get_user_id user) w.slots.enrollments ≡ some enrollment
      → (answer_code cfg pending_id user enrollment request (some code) fresh w).0
        ≡ authenticated sid
      → Checked pending_id user enrollment request.factor request.factor_id code fresh w
          (answer_code cfg pending_id user enrollment request (some code) fresh w).1
  unfolding answer_code check_code claim_code_attempt
  answer_code-Checked pending_id user enrollment request code fresh w sid e h =
      let backup = uses_backup_code request.factor request.factor_id code in
      let claim =
        claim_code_attempt cfg.json (cfg.get_user_id user)
          (attempt_factor request.factor request.factor_id code) (max_attempts cfg backup)
          cfg.code_attempt_window_ms fresh.claimed_at w.slots in
      let valid : (totp_valid cfg fresh.verified_at request.factor_id code backup enrollment
            || backup_valid (backup_code_hash cfg code backup) enrollment)
          ≡ true =
        ground (arith, h) in
      let fits =
        valid-CodeFits cfg backup fresh.verified_at request.factor_id code enrollment valid in
      let done =
        complete_valid-Completed pending_id user (backup_code_hash cfg code backup)
          (if backup then "backup_codes" else "totp") claim.0 fresh enrollment
          (record w { slots = claim.1 }) sid e in
      (
        ground (arith, h),
        fits,
        rw⁻¹ (without-remaining_codes cfg backup code enrollment.backup_code_hashes)
            (ground (arith, e, h, done)),
      )

  -- Who a session is given to, and for what: the pending challenge of the request, not yet expired, its user,
  -- the user's enrollment, and the code that was checked.
  abbrev pub Accepted : Request → Fresh → World I U → World I U → Type 0
  Accepted request fresh w w' =
      (pending_id : String) × (pending : Pending I) × (user : U) × (enrollment : MfaEnrollment)
      × (code : String) × (request.pending_id ≡ some pending_id)
      × (get pending_id w.unregistered ≡ some pending)
      × (fresh.checked_at < pending.expires_at)
      × (cfg.get_challenge_user pending.user_identity ≡ some user)
      × (get (cfg.get_user_id user) w.slots.enrollments ≡ some enrollment)
      × (request.code ≡ some code)
      × Checked pending_id user enrollment request.factor request.factor_id code fresh w w'

  Accepted-enrolled :
      (pending_id : String) (pending : Pending I) (user : U) (o : Option MfaEnrollment)
      (c : Option String) (request : Request) (fresh : Fresh) (w : World I U) (sid : String)
      → request.pending_id ≡ some pending_id
      → get pending_id w.unregistered ≡ some pending
      → fresh.checked_at < pending.expires_at
      → cfg.get_challenge_user pending.user_identity ≡ some user
      → get (cfg.get_user_id user) w.slots.enrollments ≡ o
      → request.code ≡ c
      → (answer_enrolled cfg pending_id user o request fresh w).0 ≡ authenticated sid
      → Accepted request fresh w (answer_enrolled cfg pending_id user o request fresh w).1
  unfolding answer_enrolled answer_code
  Accepted-enrolled pending_id pending user none c request fresh w sid p g l u e q h =
      absurd (ground (arith, h))
  Accepted-enrolled pending_id pending user (some enrollment) none request fresh w sid p g l u e q
        h =
      absurd (ground (arith, h, q))
  Accepted-enrolled pending_id pending user (some enrollment) (some code) request fresh w sid p g l
        u e q h =
      (
        pending_id,
        pending,
        user,
        enrollment,
        code,
        p,
        g,
        l,
        u,
        e,
        q,
        subst
            (λ c.
              Checked pending_id user enrollment request.factor request.factor_id code fresh w
                (answer_code cfg pending_id user enrollment request c fresh w).1)
            (sym q)
            (answer_code-Checked pending_id user enrollment request code fresh w sid e (
              subst
                (λ c.
                  (answer_code cfg pending_id user enrollment request c fresh w).0
                  ≡ authenticated sid)
                q h)),
      )

  Accepted-user :
      (pending_id : String) (pending : Pending I) (o : Option U) (request : Request) (fresh : Fresh)
      (w : World I U) (sid : String)
      → request.pending_id ≡ some pending_id
      → get pending_id w.unregistered ≡ some pending
      → fresh.checked_at < pending.expires_at
      → cfg.get_challenge_user pending.user_identity ≡ o
      → (answer_user cfg pending_id o request fresh w).0 ≡ authenticated sid
      → Accepted request fresh w (answer_user cfg pending_id o request fresh w).1
  unfolding answer_user
  Accepted-user pending_id pending none request fresh w sid p g l u h = absurd (ground (arith, h))
  Accepted-user pending_id pending (some user) request fresh w sid p g l u h =
      Accepted-enrolled pending_id pending user (get (cfg.get_user_id user) w.slots.enrollments)
        request.code request fresh w sid p g l u refl refl h

  Accepted-pending :
      (pending_id : String) (o : Option (Pending I)) (request : Request) (fresh : Fresh)
      (w : World I U) (sid : String)
      → request.pending_id ≡ some pending_id
      → get pending_id w.unregistered ≡ o
      → (answer_pending cfg pending_id o request fresh w).0 ≡ authenticated sid
      → Accepted request fresh w (answer_pending cfg pending_id o request fresh w).1
  unfolding answer_pending
  Accepted-pending pending_id none request fresh w sid p g h = absurd (ground (arith, h))
  Accepted-pending pending_id (some pending) request fresh w sid p g h =
      elim (Bool-cases (leb pending.expires_at fresh.checked_at)) [
        | inl e ↦ absurd (ground (arith, h, e))
        | inr e ↦ rw e (
            Accepted-user pending_id pending (cfg.get_challenge_user pending.user_identity) request
              fresh w sid p g (ground (arith, e)) refl (ground (arith, h, e)))
      ]

  Accepted-id :
      (o : Option String) (request : Request) (fresh : Fresh) (w : World I U) (sid : String)
      → request.pending_id ≡ o
      → (answer_id cfg o request fresh w).0 ≡ authenticated sid
      → Accepted request fresh w (answer_id cfg o request fresh w).1
  unfolding answer_id
  Accepted-id none request fresh w sid p h = absurd (ground (arith, h))
  Accepted-id (some pending_id) request fresh w sid p h = elim (Bool-cases (pending_id == "")) [
    | inl e ↦ absurd (ground (arith, h, e))
    | inr e ↦ rw e (
        Accepted-pending pending_id (get pending_id w.unregistered) request fresh w sid p refl
          (ground (arith, h, e)))
  ]

-- A challenge that is not asked for a text message and is answered with a session was pending and had
-- not expired, for the user of its identity, who is enrolled, and an attempt was left in the window. The
-- code was that of a verified TOTP factor of the user, of the named id if one is named, or, for a
-- request that uses a backup code, its digest was one of the user's. The pending challenge is gone, the
-- session is the user's, and of the enrollment's backup codes exactly the used one is removed.
pub challenge_sound :
    {I U : Type 0} (cfg : Config I U) (request : Request) (fresh : Fresh) (w : World I U)
    (sid : String)
    → (challenge cfg request fresh w).0 ≡ authenticated sid
    → Accepted cfg request fresh w (challenge cfg request fresh w).1
unfolding challenge
challenge_sound cfg request fresh w sid h =
    Accepted-id cfg request.pending_id request fresh w sid refl h
