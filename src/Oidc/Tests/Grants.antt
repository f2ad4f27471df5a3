-- ===== src/Oidc/Tests/Grants.antt =====
-- Runs of the token endpoint's grants.
use absolute_auth.Prelude.{String, ◌≡◌, ◌≢◌, refl, none, eq_iff, some, [], arith}
use absolute_auth.JsMap.{get, set, find_value}
use absolute_auth.JsMap.Update.{Nowhere}
use absolute_auth.Oidc.Refresh.{
  save_token, rotate_token, get_token, revoke_by_consumed_token, is_active_for,
}
use absolute_auth.Oidc.Refresh.Validity.{owns, IsValid}
use absolute_auth.Oidc.Refresh.Preserved.{save_token-IsValid}
use absolute_auth.Oidc.Refresh.Steps.{next, here, reused, rotated, rotated_stays_dead, Step-IsValid}
use absolute_auth.Oidc.Tokens.{token_set, refresh_record}
use absolute_auth.Oidc.Grants.{
  grant_refresh_token, refresh_issue, grant_authorization_code, token_response, oauth_error,
  invalid_grant,
}
use absolute_auth.Oidc.Grants.Replay.{replay_kills_family, refresh_grant_sound, Refreshed}
use absolute_auth.Oidc.Grants.Race.{racing_refresh_refused}
use absolute_auth.Oidc.Grants.Code.{code_is_single_use, code_grant_sound, Redeemed}
use absolute_auth.Oidc.Tests.Data.{
  prim, cfg, client, fresh, fresh', token, replacement, families, presents, issued, code_body,
  stores, issue_for,
}

empty-IsValid : IsValid []
empty-IsValid = record { one_owner = λ h. tt; fresh = tt }

families-IsValid : IsValid families
unfolding save_token set
families-IsValid = save_token-IsValid token [] tt empty-IsValid

new_hash : Nowhere (owns "h:r2") families
unfolding owns
new_hash = ground arith

refresh_answered :
    grant_refresh_token prim cfg client 50 60 fresh presents none none families
    ≡ (token_response issued, (rotate_token "h:r1" replacement families).1)
unfolding grant_refresh_token get find_value is_active_for
refresh_answered = refl

replay_kills_family_example :
    ((grant_refresh_token prim cfg client 80 90 fresh' presents none none
        (rotate_token "h:r1" replacement families).1).0
      ≡ oauth_error invalid_grant)
    × (get_token "h:r2"
          (grant_refresh_token prim cfg client 80 90 fresh' presents none none
            (rotate_token "h:r1" replacement families).1).1
        ≡ none)
    × (get_token "h:r1"
          (grant_refresh_token prim cfg client 80 90 fresh' presents none none
            (rotate_token "h:r1" replacement families).1).1
        ≡ none)
unfolding get token_set
replay_kills_family_example =
    replay_kills_family prim cfg client client 50 60 80 90 fresh fresh' none none none none presents
      presents families (rotate_token "h:r1" replacement families).1 "r1" issued families-IsValid
      new_hash refl refl refresh_answered

refresh_grant_sound_example :
    (p : String) × (get "refresh_token" presents ≡ some p)
    × Refreshed prim cfg client 50 60 fresh none none
        (get "resource" presents)
        p
        families
        issued
        (rotate_token "h:r1" replacement families).1
refresh_grant_sound_example =
    refresh_grant_sound prim cfg client 50 60 fresh none none presents families
      (rotate_token "h:r1" replacement families).1 issued families-IsValid new_hash refresh_answered

code_answered :
    (grant_authorization_code prim cfg client 50 60 fresh code_body none none stores).0
    ≡ token_response (token_set prim cfg 60 fresh (issue_for (some "n")))
unfolding grant_authorization_code get
code_answered = refl

code_grant_sound_example : Redeemed prim client 50 code_body stores
code_grant_sound_example =
    code_grant_sound prim cfg client 50 60 fresh none none code_body stores
      (token_set prim cfg 60 fresh (issue_for (some "n"))) code_answered

code_is_single_use_example :
    (grant_authorization_code prim cfg client 80 90 fresh' code_body none none
      (grant_authorization_code prim cfg client 50 60 fresh code_body none none stores).1).0
    ≡ oauth_error invalid_grant
unfolding get
code_is_single_use_example =
    code_is_single_use prim cfg client client 50 60 80 90 fresh fresh' none none none none code_body
      code_body "code" "verifier" "verifier" "https://app.example/cb" "https://app.example/cb"
      stores refl refl refl refl refl refl

held : get_token "h:r1" families ≡ some token
unfolding get_token find_value is_active_for
held = refl

other_hash : ◌≢◌ {A = String} "h:r2" "h:r0"
other_hash = ground (arith, eq_iff "h:r2" "h:r0")

Step-IsValid_example : IsValid (rotate_token "h:r1" replacement families).1
unfolding refresh_record
Step-IsValid_example =
    Step-IsValid {used = "h:r0"} (rotated "h:r1" replacement families other_hash new_hash)
      families-IsValid

rotated_stays_dead_example :
    get_token "h:r1"
      (revoke_by_consumed_token "h:r2" (rotate_token "h:r1" replacement families).1).1
    ≡ none
unfolding refresh_record
rotated_stays_dead_example =
    rotated_stays_dead "h:r1" token replacement families
      (revoke_by_consumed_token "h:r2" (rotate_token "h:r1" replacement families).1).1
      families-IsValid new_hash held
      (next here (reused "h:r2" (rotate_token "h:r1" replacement families).1))

racing_refresh_refused_example :
    ((refresh_issue prim cfg client 60 fresh "h:r1" none token families).0 ≡ token_response issued)
    × ((refresh_issue prim cfg client 61 fresh' "h:r1" none token
          (refresh_issue prim cfg client 60 fresh "h:r1" none token families).1).0
        ≡ oauth_error invalid_grant)
    × (get_token "h:r2"
          (refresh_issue prim cfg client 61 fresh' "h:r1" none token
            (refresh_issue prim cfg client 60 fresh "h:r1" none token families).1).1
        ≡ none)
    × (get_token "h:r1"
          (refresh_issue prim cfg client 61 fresh' "h:r1" none token
            (refresh_issue prim cfg client 60 fresh "h:r1" none token families).1).1
        ≡ none)
racing_refresh_refused_example =
    racing_refresh_refused prim cfg client 60 61 fresh fresh' "h:r1" none none token families
      families-IsValid new_hash held
