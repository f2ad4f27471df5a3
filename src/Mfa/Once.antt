-- ===== src/Mfa/Once.antt =====
-- A backup code answers one challenge, whatever challenges follow.
use absolute_auth.Prelude.{
  inl, inr, sym, String, ◌≡◌, ◌≢◌, refl, true, false, not, Option, none, some, List, [], ◌∷◌, ◌==◌,
  string_eq, option_string_eq, includes, filter, arith, eq_iff,
}
use absolute_auth.Crypto.Totp.{hash_token}
use absolute_auth.JsMap.{get}
use absolute_auth.Mfa.{MfaEnrollment}
use absolute_auth.Mfa.Challenge.{
  CodeFactor, Config, Pending, World, Request, Fresh, authenticated, challenge, uses_backup_code,
}
use absolute_auth.Mfa.Spent.{absent, challenge_all, challenge_all-IsSpent}
use absolute_auth.Mfa.Laws.{Checked, challenge_sound}

removed :
    (hash : String) (hashes : List String)
    → includes hash (filter (λ h. not (h == hash)) hashes) ≡ false
unfolding includes
removed hash [] = refl
removed hash (h ∷ hashes) = ground (arith, removed hash hashes, eq_iff h hash)

module _ {I U : Type 0} (cfg : Config I U) where
  abbrev id_of : Option U → Option String
  id_of none = none
  id_of (some user) = some (cfg.get_user_id user)

  abbrev id_of_pending : Option (Pending I) → Option String
  id_of_pending none = none
  id_of_pending (some pending) = id_of (cfg.get_challenge_user pending.user_identity)

  -- The user id of the challenge that a request answers.
  abbrev pub user_of : Option String → World I U → Option String
  user_of none w = none
  user_of (some pending_id) w = id_of_pending (get pending_id w.unregistered)

  -- A check of a backup code found its hash, and removes it.
  backup-included :
      (pending_id : String) (user : U) (enrollment : MfaEnrollment) (factor : Option CodeFactor)
      (factor_id : Option String) (code : String) (fresh : Fresh) (w w' : World I U)
      → uses_backup_code factor factor_id code ≡ true
      → Checked cfg pending_id user enrollment factor factor_id code fresh w w'
      → (includes (hash_token cfg.runtime code) enrollment.backup_code_hashes ≡ true)
        × (get (cfg.get_user_id user) w'.slots.enrollments
            ≡ some (record enrollment {
              backup_code_hashes =
                  filter
                    (λ h. not (h == hash_token cfg.runtime code))
                    enrollment.backup_code_hashes;
              last_used_at = some fresh.completed_at;
              totp_failed_attempts = some 0;
              updated_at = fresh.completed_at;
            }))
  unfolding hash_token
  backup-included pending_id user enrollment factor factor_id code fresh w w' b
        (allowed, inl (other_way, fits), (_, _, e)) =
      absurd (ground (arith, b, other_way))
  backup-included pending_id user enrollment factor factor_id code fresh w w' b
        (allowed, inr (this_way, found), (_, _, e)) =
      (found, rw b at e)

  same_user :
      (pending_id : Option String) (p : String) (o : Pending I) (user : U) (w : World I U)
      (id : String)
      → pending_id ≡ some p
      → get p w.unregistered ≡ some o
      → cfg.get_challenge_user o.user_identity ≡ some user
      → user_of pending_id w ≡ some id
      → cfg.get_user_id user ≡ id
  same_user pending_id p o user w id e g u h = ground (arith, e, g, u, h)

-- A backup code that answered a challenge of a user with a session answers no later challenge of that
-- user with a session, whatever challenges of any users come in between; they are challenges that
-- are not asked for a text message, and both requests are ones that use a backup code.
pub backup_code_used_once :
    {I U : Type 0} (cfg : Config I U) (first second : Request) (f1 f2 : Fresh)
    (between : List (Request × Fresh)) (w : World I U) (sid id code : String)
    → uses_backup_code first.factor first.factor_id code ≡ true
    → first.code ≡ some code
    → user_of cfg first.pending_id w ≡ some id
    → (challenge cfg first f1 w).0 ≡ authenticated sid
    → uses_backup_code second.factor second.factor_id code ≡ true
    → second.code ≡ some code
    → user_of cfg second.pending_id (challenge_all cfg between (challenge cfg first f1 w).1)
      ≡ some id
    → (other : String)
    → (challenge cfg second f2 (challenge_all cfg between (challenge cfg first f1 w).1)).0
      ≢ authenticated other
backup_code_used_once cfg first second f1 f2 between w sid id code b1 c1 u1 h1 b2 c2 u2 other h2 =
    let hash = hash_token cfg.runtime code in
    let w1 = (challenge cfg first f1 w).1 in
    let w2 = challenge_all cfg between w1 in
    let (p, o, user, e, k, r1, r2, r3, r4, r5, r6, r7) = challenge_sound cfg first f1 w sid h1 in
    let (p', o', user', e', k', s1, s2, s3, s4, s5, s6, s7) =
      challenge_sound cfg second f2 w2 other h2 in
    let same : k ≡ code = ground (arith, c1, r6) in
    let same' : k' ≡ code = ground (arith, c2, s6) in
    let gone =
      (backup-included cfg p user e first.factor first.factor_id k f1 w w1 (rw same b1) r7).1 in
    let again =
      (backup-included cfg p' user' e' second.factor second.factor_id k' f2 w2
        (challenge cfg second f2 w2).1 (rw same' b2) s7).0 in
    let here = same_user cfg first.pending_id p o user w id r1 r2 r4 u1 in
    let there = same_user cfg second.pending_id p' o' user' w2 id s1 s2 s4 u2 in
    let spent : absent hash (get id w1.slots.enrollments) ≡ true =
      rw (sym here) (rw (gone) (rw same (ground (arith, removed hash e.backup_code_hashes)))) in
    let still = challenge_all-IsSpent cfg id hash between w1 spent in
    ground (arith, again, s5, same', there, still)
