-- ===== src/Mfa/Attempts.antt =====
-- The limit on code checks: sequences of claimCodeAttempt (src/mfa/inMemoryMfaStore.ts).
use absolute_auth.Prelude.{
  ℕ, String, ◌≡◌, ◌≤◌, ◌<◌, refl, Bool, true, false, ◌&&◌, Option, none, some, List, [], ◌∷◌, ◌+◌,
  ◌==◌, string_eq, if◌then◌else◌, All, arith, eq_iff, Bool-cases, inl, inr,
}
use absolute_auth.JsMap.{get}
use absolute_auth.JsMap.Laws.{get-set}
use absolute_auth.Mfa.{
  JsonText, MfaAttempt, Slots, claim_code_attempt, claimed, attempt_key, current_window,
}

-- A claim, as a request makes it.
pub record Claim : Type 0 where
  pub user_id : String
  pub factor : String
  pub now : ℕ

-- The code's limits: the window, and the maximum of each factor.
pub record Limits : Type 0 where
  pub max_attempts : String → ℕ
  pub window_ms : ℕ

-- One claim as a step of the store.
abbrev pub claim : JsonText → Limits → Claim → Slots → MfaAttempt × Slots
claim json limits c s =
    claim_code_attempt json c.user_id c.factor (limits.max_attempts c.factor) limits.window_ms c.now
      s

abbrev pub is_of : String → String → Claim → Bool
is_of user_id factor c = c.user_id == user_id && c.factor == factor

-- The number of claims of a user and factor that a sequence of claims allows.
abbrev pub allowed_count : JsonText → Limits → String → String → List Claim → Slots → ℕ
allowed_count json limits user_id factor [] s = 0
allowed_count json limits user_id factor (c ∷ cs) s =
    let (a, s') = claim json limits c s in
    (if is_of user_id factor c && a.allowed then 1 else 0)
    + allowed_count json limits user_id factor cs s'

-- The stringified keys of the claims are told apart from that of the user and factor.
abbrev pub KeyFits : JsonText → String → String → Claim → Type 0
KeyFits json user_id factor c =
    (attempt_key json c.user_id c.factor == attempt_key json user_id factor)
    ≡ is_of user_id factor c

module _ (json : JsonText) (limits : Limits) (user_id factor : String) (start : ℕ) where
  abbrev key : String
  key = attempt_key json user_id factor

  abbrev InWindow : Claim → Type 0
  InWindow c = (start ≤ c.now) × (c.now < start + limits.window_ms)

  -- What the counter may hold: nothing, or a window that opened in the interval and its count.
  abbrev Counted : ℕ → Option MfaAttempt → Type 0
  Counted n none = n ≡ 0
  Counted n (some r) =
      (r.attempts ≡ n) × ((start ≤ r.window_started_at) × (n ≤ limits.max_attempts factor))

  claimed-Counted :
      (n now : ℕ) (o : Option MfaAttempt)
      → Counted n o
      → (start ≤ now) × (now < start + limits.window_ms)
      → Counted
          (n
            + (if (claimed (limits.max_attempts factor) limits.window_ms now o).allowed
                then 1
                else 0))
          (some (claimed (limits.max_attempts factor) limits.window_ms now o))
  unfolding claimed current_window
  claimed-Counted n now none h w = ground arith
  claimed-Counted n now (some r) h w = ground arith

  Counted-bound : (n : ℕ) (o : Option MfaAttempt) → Counted n o → n ≤ limits.max_attempts factor
  Counted-bound n none h = omega arith
  Counted-bound n (some r) h = h.1.1

  -- What one claim adds to the count.
  added : Claim → Slots → ℕ
  added c s = if is_of user_id factor c && (claim json limits c s).0.allowed then 1 else 0

  own-Counted :
      (c : Claim) (n : ℕ) (s : Slots)
      → Counted n (get key s.code_attempts)
      → InWindow c
      → is_of user_id factor c ≡ true
      → Counted (n + added c s) (get key (claim json limits c s).1.code_attempts)
  unfolding claim_code_attempt added
  own-Counted c n s h w e = ground (
    arith,
    e,
    eq_iff c.user_id user_id,
    eq_iff c.factor factor,
    eq_iff key key,
    claimed-Counted n c.now (get key s.code_attempts) h w,
    get-set key key
        (claimed (limits.max_attempts factor) limits.window_ms c.now (get key s.code_attempts))
        s.code_attempts,
  )

  other-Counted :
      (c : Claim) (n : ℕ) (s : Slots)
      → Counted n (get key s.code_attempts)
      → KeyFits json user_id factor c
      → is_of user_id factor c ≡ false
      → Counted (n + added c s) (get key (claim json limits c s).1.code_attempts)
  unfolding claim_code_attempt added
  other-Counted c n s h f e =
      rw
        (
          get-set (attempt_key json c.user_id c.factor) key (claim json limits c s).0
              s.code_attempts,
          f,
          e,
        )
        (let z : n + 0 ≡ n = omega arith in rw z h)

  claim-Counted :
      (c : Claim) (n : ℕ) (s : Slots)
      → Counted n (get key s.code_attempts)
      → InWindow c
      → KeyFits json user_id factor c
      → Counted (n + added c s) (get key (claim json limits c s).1.code_attempts)
  unfolding claim_code_attempt added
  claim-Counted c n s h w f = elim (Bool-cases (is_of user_id factor c)) [
    | inl e ↦ own-Counted c n s h w e
    | inr e ↦ other-Counted c n s h f e
  ]

  count-bound :
      (cs : List Claim) (n : ℕ) (s : Slots)
      → Counted n (get key s.code_attempts)
      → All InWindow cs
      → All (KeyFits json user_id factor) cs
      → n + allowed_count json limits user_id factor cs s ≤ limits.max_attempts factor
  unfolding added
  count-bound [] n s h w f = ground (arith, Counted-bound n (get key s.code_attempts) h)
  count-bound (c ∷ cs) n s h w f =
      let rest =
        count-bound cs (n + added c s) (claim json limits c s).1 (claim-Counted c n s h w.0 f.0) w.1
          f.1 in
      ground (arith, rest)

-- In any sequence of claims, of any users and factors, at times in one interval as long as the
-- window, at most the maximum of its factor is allowed for a user and factor that had no counter
-- at its start; stringify is assumed to tell the keys of the sequence apart.
pub attempts_bounded :
    (json : JsonText) (limits : Limits) (user_id factor : String) (start : ℕ) (cs : List Claim)
    (s : Slots)
    → get (attempt_key json user_id factor) s.code_attempts ≡ none
    → All (λ c. (start ≤ c.now) × (c.now < start + limits.window_ms)) cs
    → All (KeyFits json user_id factor) cs
    → allowed_count json limits user_id factor cs s ≤ limits.max_attempts factor
attempts_bounded json limits user_id factor start cs s e w f =
    ground (arith, count-bound json limits user_id factor start cs 0 s (rw e refl) w f)
