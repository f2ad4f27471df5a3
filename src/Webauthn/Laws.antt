-- ===== src/Webauthn/Laws.antt =====
-- A challenge answers one ceremony, its own, before it expires.
use absolute_auth.Prelude.{
  ℕ, ◌≡◌, ◌<◌, refl, ◌∙◌, true, Option, none, some, string_eq, option_string_eq, arith, eq_iff,
  option_beq_iff, Bool-cases, inl, inr, sym, ◌⊎◌,
}
use absolute_auth.JsMap.{get, has, set, delete, delete_where}
use absolute_auth.JsMap.Laws.{
  IsMap, unless, get-set, get-delete, get-delete_where, delete_where-IsMap, delete-IsMap, set-IsMap,
}
use absolute_auth.Webauthn.{
  Purpose, registration, authentication, approval, same_purpose, WebAuthnChallenge, Store, Asked,
  is_expired, is_asked, consume, consume_entry, save,
}

same_purpose_sound : (p q : Purpose) → same_purpose p q ≡ true → p ≡ q
unfolding same_purpose
same_purpose_sound registration registration h = refl
same_purpose_sound registration authentication h = ground arith
same_purpose_sound registration approval h = ground arith
same_purpose_sound authentication registration h = ground arith
same_purpose_sound authentication authentication h = refl
same_purpose_sound authentication approval h = ground arith
same_purpose_sound approval registration h = ground arith
same_purpose_sound approval authentication h = ground arith
same_purpose_sound approval approval h = refl

-- An entry that a consumption returns.
pub record Consumed (input : Asked) (m : Store) (c : WebAuthnChallenge) : Type 0 where
  pub stored : get input.id m ≡ some c
  pub alive : input.now < c.expires_at
  pub purpose : c.purpose ≡ input.purpose
  pub user : c.user_id ≡ input.user_id
  pub session : c.session_id ≡ input.session_id

unless-some :
    (now : ℕ) (o : Option WebAuthnChallenge) (c : WebAuthnChallenge)
    → unless (is_expired now) o ≡ some c
    → (o ≡ some c) × (now < c.expires_at)
unfolding is_expired
unless-some now none c h = ground arith
unless-some now (some d) c h = ground arith

asked_sound :
    (input : Asked) (c : WebAuthnChallenge)
    → is_asked input c ≡ true
    → (c.purpose ≡ input.purpose) × (c.user_id ≡ input.user_id) × (c.session_id ≡ input.session_id)
unfolding is_asked
asked_sound input c h = ground (
  arith,
  same_purpose_sound c.purpose input.purpose,
  option_beq_iff c.user_id input.user_id,
  option_beq_iff c.session_id input.session_id,
)

consume_entry_lem :
    (input : Asked) (o : Option WebAuthnChallenge) (m : Store) (c : WebAuthnChallenge)
    → (consume_entry input o m).0 ≡ some c
    → (o ≡ some c) × (is_asked input c ≡ true) × ((consume_entry input o m).1 ≡ delete input.id m)
unfolding consume_entry
consume_entry_lem input none m c h = ground arith
consume_entry_lem input (some d) m c h = ground arith

absent_refused :
    (input : Asked) (m : Store) → IsMap m → get input.id m ≡ none → (consume input m).0 ≡ none
unfolding consume consume_entry
absent_refused input m v e = ground (arith, e, get-delete_where (is_expired input.now) input.id m v)

-- A challenge that a consumption returns is the stored one of that id, unexpired, and of the asked
-- purpose, user and session; afterwards no consumption of its id, whatever it asks and whenever,
-- returns anything.
pub challenge_used_once :
    (input again : Asked) (m : Store) (c : WebAuthnChallenge)
    → IsMap m
    → again.id ≡ input.id
    → (consume input m).0 ≡ some c
    → Consumed input m c × ((consume again (consume input m).1).0 ≡ none)
unfolding consume
challenge_used_once input again m c v same h =
    let swept = delete_where (is_expired input.now) m in
    let (found, asked, left) = consume_entry_lem input (get input.id swept) swept c h in
    let (stored, alive) =
      unless-some input.now (get input.id m) c
        (sym (get-delete_where (is_expired input.now) input.id m v) ∙ found) in
    let (purpose, user, session) = asked_sound input c asked in
    (
      record { stored = stored; alive = alive; purpose = purpose; user = user; session = session },
      absent_refused again (consume input m).1
          (rw left (delete-IsMap input.id swept (delete_where-IsMap (is_expired input.now) m v)))
          (rw left
            (ground (arith, same, get-delete input.id again.id swept, eq_iff input.id again.id))),
    )

-- The consumption that matches a challenge.
abbrev pub matching : WebAuthnChallenge → ℕ → Asked
matching c now = record {
  id = c.id;
  purpose = c.purpose;
  user_id = c.user_id;
  session_id = c.session_id;
  now = now;
}

same_purpose_self : (p : Purpose) → same_purpose p p ≡ true
unfolding same_purpose
same_purpose_self registration = refl
same_purpose_self authentication = refl
same_purpose_self approval = refl

matching_asked : (c : WebAuthnChallenge) (now : ℕ) → is_asked (matching c now) c ≡ true
unfolding is_asked
matching_asked c now = ground (
  arith,
  same_purpose_self c.purpose,
  option_beq_iff c.user_id c.user_id,
  option_beq_iff c.session_id c.session_id,
)

consume-found :
    (c : WebAuthnChallenge) (now : ℕ) (m : Store)
    → IsMap m
    → now < c.expires_at
    → get c.id m ≡ some c
    → (consume (matching c now) m).0 ≡ some c
unfolding consume consume_entry is_expired
consume-found c now m v alive e =
    ground (arith, e, get-delete_where (is_expired now) c.id m v, matching_asked c now)

-- A challenge that is saved under a free id is returned by a matching consumption before its
-- expiry; an id that is taken is refused.
pub consume-save :
    (c : WebAuthnChallenge) (now : ℕ) (m : Store)
    → IsMap m
    → now < c.expires_at
    → (has c.id m ≡ true) × (save c m ≡ none)
      ⊎ ((n : Store) × (save c m ≡ some n) × ((consume (matching c now) n).0 ≡ some c))
unfolding save
consume-save c now m v alive = elim (Bool-cases (has c.id m)) [
  | inl taken ↦ inl (taken, rw taken refl)
  | inr free ↦ inr (
    set c.id c m,
    rw free refl,
    consume-found c now (set c.id c m) (set-IsMap c.id c m v) alive
        (ground (arith, get-set c.id c.id c m, eq_iff c.id c.id)),
  )
]
