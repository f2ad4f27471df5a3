-- ===== src/Oidc/Refresh/Reuse.antt =====
-- A rotated token is dead, and presenting it again kills the token that replaced it.
use absolute_auth.Prelude.{
  String, ◌≡◌, refl, true, false, none, some, ◌==◌, string_eq, arith, ◌⊎◌, inl, inr, Option-cases,
  eq_iff,
}
use absolute_auth.JsMap.{find_value, update_first}
use absolute_auth.JsMap.Update.{
  Nowhere, find_value-Nowhere, find_value_holds, find_value-update_first, Nowhere-update_first,
  update_first-update_first, Nowhere-update_first_only, Nowhere_of_only, Nowhere-weaken,
  AtMostOne-weaken, Nowhere_found,
}
use absolute_auth.Oidc.Types.{RefreshToken}
use absolute_auth.Oidc.Refresh.{
  Family, Store, is_active_for, has_consumed, replace, revoke, get_token, rotate_token,
  revoke_by_consumed_token, token_of,
}
use absolute_auth.Oidc.Refresh.Validity.{
  owns, IsValid, includes-add, active-le-owns, consumed-le-owns, owns_of_active, fresh_of_found,
  revoked_inactive,
}

module _ (h : String) (r : RefreshToken) (families : Store) (f : Family) where
  no_consumer :
      IsValid families
      → find_value (is_active_for h) families ≡ some f
      → Nowhere (has_consumed h) families
  no_consumer valid e =
      Nowhere_of_only (is_active_for h) (owns h) (has_consumed h) f families (consumed-le-owns h)
        (valid.one_owner h) e (owns_of_active h f (find_value_holds (is_active_for h) f families e))
        (fresh_of_found h f families valid.fresh e)

  -- The replacement as it lands in the family.
  abbrev replaced : Family
  replaced = replace h r f

  other_hash :
      Nowhere (owns r.token_hash) families
      → find_value (is_active_for h) families ≡ some f
      → (r.token_hash == h) ≡ false
  unfolding owns is_active_for
  other_hash new e = ground (
    arith,
    Nowhere_found (owns r.token_hash) (is_active_for h) f families new e,
    find_value_holds (is_active_for h) f families e,
    eq_iff r.token_hash h,
    eq_iff f.token.token_hash h,
    eq_iff f.token.token_hash r.token_hash,
  )

  replaced_active :
      find_value (is_active_for h) families ≡ some f → is_active_for r.token_hash replaced ≡ true
  unfolding replace is_active_for
  replaced_active e =
      ground
        (arith, find_value_holds (is_active_for h) f families e, eq_iff r.token_hash r.token_hash)

  replaced_consumes : has_consumed h replaced ≡ true
  unfolding replace has_consumed
  replaced_consumes = ground (arith, includes-add h h f.consumed, eq_iff h h)

  new_active : Nowhere (owns r.token_hash) families → Nowhere (is_active_for r.token_hash) families
  new_active =
      Nowhere-weaken (is_active_for r.token_hash) (owns r.token_hash) families
        (active-le-owns r.token_hash)

  replaced_inactive :
      Nowhere (owns r.token_hash) families
      → find_value (is_active_for h) families ≡ some f
      → is_active_for h replaced ≡ false
  unfolding replace is_active_for
  replaced_inactive new e = ground (arith, other_hash new e)

  -- Both steps in terms of the family that holds the token.
  rotate-found :
      find_value (is_active_for h) families ≡ some f
      → rotate_token h r families ≡ (true, update_first (is_active_for h) (replace h r) families)
  unfolding rotate_token
  rotate-found e = rw (e, rotate_token)

  get_token-found :
      Nowhere (owns r.token_hash) families
      → find_value (is_active_for h) families ≡ some f
      → get_token r.token_hash (rotate_token h r families).1 ≡ some r
  unfolding get_token replace
  get_token-found new e = rw (
    rotate-found e,
    find_value-update_first (is_active_for r.token_hash) (is_active_for h) (replace h r) f families
        (new_active new) e (replaced_active e),
  )

  get_token-rotated :
      IsValid families
      → Nowhere (owns r.token_hash) families
      → find_value (is_active_for h) families ≡ some f
      → get_token h (rotate_token h r families).1 ≡ none
  unfolding get_token
  get_token-rotated valid new e = rw (
    rotate-found e,
    find_value-Nowhere (is_active_for h) _ (
        Nowhere-update_first_only (is_active_for h) (is_active_for h) (replace h r) f families
          (AtMostOne-weaken (is_active_for h) (owns h) families (active-le-owns h)
            (valid.one_owner h))
          e (find_value_holds (is_active_for h) f families e) (replaced_inactive new e)),
  )

  reuse-found :
      IsValid families
      → find_value (is_active_for h) families ≡ some f
      → revoke_by_consumed_token h (rotate_token h r families).1
        ≡ (true, update_first (is_active_for h) (λ w. revoke (replace h r w)) families)
  unfolding revoke_by_consumed_token
  reuse-found valid e = rw (
    revoke_by_consumed_token,
    rotate-found e,
    find_value-update_first (has_consumed h) (is_active_for h) (replace h r) f families
        (no_consumer valid e) e replaced_consumes,
    rotate-found e,
    update_first-update_first (has_consumed h) (is_active_for h) (replace h r) revoke f families
        (no_consumer valid e) e replaced_consumes,
  )

  reuse_kills :
      IsValid families
      → Nowhere (owns r.token_hash) families
      → find_value (is_active_for h) families ≡ some f
      → (x : String) → ((x ≡ h) ⊎ (x ≡ r.token_hash))
      → get_token x (revoke_by_consumed_token h (rotate_token h r families).1).1 ≡ none
  unfolding get_token
  reuse_kills valid new e x (inl p) = rw (
    reuse-found valid e,
    p,
    find_value-Nowhere (is_active_for h) _ (
        Nowhere-update_first_only (is_active_for h) (is_active_for h) (λ w. revoke (replace h r w))
          f families
          (AtMostOne-weaken (is_active_for h) (owns h) families (active-le-owns h)
            (valid.one_owner h))
          e (find_value_holds (is_active_for h) f families e) (revoked_inactive h replaced)),
  )
  reuse_kills valid new e x (inr p) = rw (
    reuse-found valid e,
    p,
    find_value-Nowhere (is_active_for r.token_hash) _ (
        Nowhere-update_first (is_active_for r.token_hash) (is_active_for h)
          (λ w. revoke (replace h r w)) f families (new_active new) e
          (revoked_inactive r.token_hash replaced)),
  )

-- A token that the store returns is held by an active family.
holder :
    (h : String) (t : RefreshToken) (families : Store)
    → get_token h families ≡ some t
    → (f : Family) × (find_value (is_active_for h) families ≡ some f) × (f.token ≡ t)
unfolding get_token token_of
holder h t families e = elim (Option-cases (find_value (is_active_for h) families)) [
  | inl absent ↦ ground arith
  | inr (f, found) ↦ (f, found, ground arith)
]

-- Rotating a token that the valid store holds succeeds: afterwards the store returns the
-- replacement, whose hash no family had, and no longer the token.
pub get_token-rotate_token :
    (h : String) (t r : RefreshToken) (families : Store)
    → IsValid families
    → Nowhere (owns r.token_hash) families
    → get_token h families ≡ some t
    → ((rotate_token h r families).0 ≡ true)
      × (get_token r.token_hash (rotate_token h r families).1 ≡ some r)
      × (get_token h (rotate_token h r families).1 ≡ none)
get_token-rotate_token h t r families valid new e =
    let (f, found, _) = holder h t families e in
    (
      rw (rotate-found h r families f found),
      get_token-found h r families f new found,
      get_token-rotated h r families f valid new found,
    )

-- Presenting a rotated token again is detected, and afterwards the store returns neither that
-- token nor the one that replaced it.
pub reuse_revokes_replacement :
    (h : String) (t r : RefreshToken) (families : Store)
    → IsValid families
    → Nowhere (owns r.token_hash) families
    → get_token h families ≡ some t
    → ((revoke_by_consumed_token h (rotate_token h r families).1).0 ≡ true)
      × (get_token r.token_hash (revoke_by_consumed_token h (rotate_token h r families).1).1 ≡ none)
      × (get_token h (revoke_by_consumed_token h (rotate_token h r families).1).1 ≡ none)
reuse_revokes_replacement h t r families valid new e =
    let (f, found, _) = holder h t families e in
    (
      rw (reuse-found h r families f valid found),
      reuse_kills h r families f valid new found r.token_hash (inr refl),
      reuse_kills h r families f valid new found h (inl refl),
    )
