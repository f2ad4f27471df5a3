-- ===== src/Webauthn.antt =====
-- WebAuthn challenges (createInMemoryWebAuthnChallengeStore of src/webauthn/challengeStore.ts).
pub mod Laws
mod Tests
use absolute_auth.Prelude.{
  ℕ, String, Bool, true, false, ◌&&◌, Option, none, some, List, ◌==◌, string_eq, option_string_eq,
  leb, if◌then◌else◌,
}
use absolute_auth.JsMap.{JsMap, get, has, set, delete, delete_where}

pub data Purpose : Type 0 where
  registration authentication approval : Purpose

unfoldable pub same_purpose : Purpose → Purpose → Bool
same_purpose registration registration = true
same_purpose registration authentication = false
same_purpose registration approval = false
same_purpose authentication registration = false
same_purpose authentication authentication = true
same_purpose authentication approval = false
same_purpose approval registration = false
same_purpose approval authentication = false
same_purpose approval approval = true

pub record WebAuthnChallenge : Type 0 where
  pub id : String
  pub challenge : String
  pub purpose : Purpose
  pub expires_at : ℕ
  pub user_id : Option String
  pub session_id : Option String

abbrev pub Store : Type 0
Store = JsMap WebAuthnChallenge

-- What a consumption asks of the entry.
pub record Asked : Type 0 where
  pub id : String
  pub purpose : Purpose
  pub user_id : Option String
  pub session_id : Option String
  pub now : ℕ

unfoldable pub is_expired : ℕ → WebAuthnChallenge → Bool
is_expired now entry = leb entry.expires_at now

unfoldable pub is_asked : Asked → WebAuthnChallenge → Bool
unfolding same_purpose
is_asked input entry =
    same_purpose entry.purpose input.purpose
    && (entry.user_id == input.user_id && entry.session_id == input.session_id)

consume_entry : Asked → Option WebAuthnChallenge → Store → Option WebAuthnChallenge × Store
unfolding is_asked
consume_entry input none m = (none, m)
consume_entry input (some entry) m =
    if is_asked input entry then (some entry, delete input.id m) else (none, m)

unfoldable pub consume : Asked → Store → Option WebAuthnChallenge × Store
unfolding consume_entry is_expired
consume input m =
    let swept = delete_where (is_expired input.now) m in
    consume_entry input (get input.id swept) swept

-- `none` where the id is taken and the code throws.
unfoldable pub save : WebAuthnChallenge → Store → Option Store
save challenge m = if has challenge.id m then none else some (set challenge.id challenge m)
