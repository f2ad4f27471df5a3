-- ===== src/Mfa/Fits.antt =====
-- What a code that a login challenge accepts fits: a verified TOTP factor, or a backup code.
use absolute_auth.Prelude.{
  ℕ, Bool, false, not, List, [], ◌∷◌, Any, any, filter, includes, ◌⊎◌, option_beq_iff, String, ◌≡◌,
  inl, inr, refl, true, ◌||◌, Option, none, some, ◌==◌, string_eq, arith, Bool-cases,
}
use absolute_auth.Mfa.{MfaEnrollment, MfaFactor, TotpMfaFactor, sms, totp, without_hash}
use absolute_auth.Crypto.Totp.{Runtime, verify_totp, hash_token}
use absolute_auth.Mfa.Challenge.{
  get_mfa_factors, decrypt_totp_secret, is_asked_totp, totp_fits, Config, totp_valid,
  backup_code_hash, backup_valid,
}

any-filter :
    {A : Type 0} (p q : A → Bool) (xs : List A)
    → any p (filter q xs) ≡ true
    → (x : A) × Any (λ y. y ≡ x) xs × (q x ≡ true) × (p x ≡ true)
any-filter p q [] h = absurd (ground (arith, h))
any-filter p q (x ∷ xs) h = elim (Bool-cases (q x)) [
  | inr e ↦ let (y, m, a, b) = any-filter p q xs (ground (arith, h, e)) in (y, inr m, a, b)
  | inl e ↦ elim (Bool-cases (p x)) [
    | inl f ↦ (x, inl refl, e, f)
    | inr f ↦ let (y, m, a, b) = any-filter p q xs (ground (arith, h, e, f)) in (y, inr m, a, b)
  ]
]

-- The backup codes that are left: all but the used one.
abbrev pub remaining_codes : Runtime → Bool → String → List String → List String
remaining_codes runtime false code hashes = hashes
remaining_codes runtime true code hashes =
    filter (λ h. not (h == runtime.base64url (runtime.sha256 code))) hashes

module _ {I U : Type 0} (cfg : Config I U) where
  -- A verified TOTP factor of the user, of the id that is named where one is, whose code it is.
  abbrev pub TotpFits : ℕ → Option String → String → MfaEnrollment → Type 0
  TotpFits now factor_id code enrollment =
      (factor : TotpMfaFactor) × Any (λ g. g ≡ totp factor) (get_mfa_factors enrollment)
      × (factor.verified ≡ true)
      × ((factor_id ≡ some factor.id) ⊎ (factor_id ≡ none))
      × (verify_totp cfg.runtime 6 now 30 (decrypt_totp_secret cfg factor.secret_ciphertext) code 1
          ≡ true)

  asked-TotpFits :
      (now : ℕ) (factor_id : Option String) (code : String) (enrollment : MfaEnrollment)
      (g : MfaFactor)
      → Any (λ h. h ≡ g) (get_mfa_factors enrollment)
      → is_asked_totp factor_id g ≡ true
      → totp_fits cfg now code g ≡ true
      → TotpFits now factor_id code enrollment
  unfolding is_asked_totp totp_fits
  asked-TotpFits now factor_id code enrollment (sms factor) m a b = absurd (ground (arith, a))
  asked-TotpFits now factor_id code enrollment (totp factor) m a b = (
    factor,
    m,
    ground (arith, a),
    ground (arith, a, option_beq_iff factor_id (some factor.id), option_beq_iff factor_id none),
    b,
  )

  -- What was found to fit: a TOTP factor, or a backup code of the user.
  abbrev pub CodeFits : Bool → ℕ → Option String → String → MfaEnrollment → Type 0
  CodeFits backup now factor_id code enrollment =
      ((backup ≡ false) × TotpFits now factor_id code enrollment)
      ⊎ ((backup ≡ true)
          × (includes (cfg.runtime.base64url (cfg.runtime.sha256 code))
                enrollment.backup_code_hashes
              ≡ true))

  pub valid-CodeFits :
      (backup : Bool) (now : ℕ) (factor_id : Option String) (code : String)
      (enrollment : MfaEnrollment)
      → (totp_valid cfg now factor_id code backup enrollment
          || backup_valid (backup_code_hash cfg code backup) enrollment)
        ≡ true
      → CodeFits backup now factor_id code enrollment
  unfolding totp_valid backup_valid backup_code_hash hash_token
  valid-CodeFits true now factor_id code enrollment h = inr (refl, ground (arith, h))
  valid-CodeFits false now factor_id code enrollment h =
      let (g, m, a, b) =
        any-filter (totp_fits cfg now code) (is_asked_totp factor_id) (get_mfa_factors enrollment)
          (ground (arith, h)) in
      inl (refl, asked-TotpFits now factor_id code enrollment g m a b)

  pub without-remaining_codes :
      (backup : Bool) (code : String) (hashes : List String)
      → without_hash (backup_code_hash cfg code backup) hashes
        ≡ remaining_codes cfg.runtime backup code hashes
  unfolding without_hash backup_code_hash hash_token
  without-remaining_codes true code hashes = refl
  without-remaining_codes false code hashes = refl
