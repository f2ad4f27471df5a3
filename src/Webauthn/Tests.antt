-- ===== src/Webauthn/Tests.antt =====
-- Runs of the challenge store.
use absolute_auth.Prelude.{◌≡◌, refl, none, some, [], ◌∷◌}
use absolute_auth.JsMap.{get, delete_where}
use absolute_auth.Webauthn.{WebAuthnChallenge, Store, Asked, registration, authentication, consume}
use absolute_auth.Webauthn.Laws.{Consumed, matching, challenge_used_once}

abbrev challenge : WebAuthnChallenge
challenge = record {
  id = "c1";
  challenge = "random";
  purpose = registration;
  expires_at = 100;
  user_id = some "alice";
  session_id = none;
}

abbrev wrong_purpose : Asked
wrong_purpose = record (matching challenge 60) { purpose = authentication }

abbrev saved : Store
saved = ("c1", challenge) ∷ []

challenge_used_once_example :
    Consumed (matching challenge 50) saved challenge
    × ((consume wrong_purpose (consume (matching challenge 50) saved).1).0 ≡ none)
unfolding consume get delete_where
challenge_used_once_example =
    challenge_used_once (matching challenge 50) wrong_purpose saved challenge (refl, tt) refl refl
